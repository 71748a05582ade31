-- ===== src/Core/Transaction.antt =====
-- The body of `store.transaction`: it reads and writes the state of a transaction, and may throw,
-- which throws all of its writes away. `fresh kind n` is the n-th id that the `ids` port, or
-- `createId`, hands out. `put(kind, id, record, generationOf(kind, id))` always finds the
-- generation that it expects, so the envelopes' generations are left out; `put(kind, id, record)`
-- expects no record of that id.
pub mod Posts
use agents_can_communicate.Base.{
  ℕ, ◌+◌, ◌≡◌, refl, Bool, true, false, Option, none, some, List, [], ◌∷◌, ◌++◌, Text, codes,
  Result, ok, err, Exit, require, is_none,
}
use agents_can_communicate.Base.Table.{Table, lookup, insert, remove}
use agents_can_communicate.Core.Records.{Tx, Event, Happening, Claim, Receipt, Session}

abbrev pub M {ℓ} : Type ℓ → Type ℓ
M A = Tx → Result (A × Tx)

unfoldable pub pure {ℓ} : {A : Type ℓ} → A → M A
pure a tx = ok (a, tx)

unfoldable pub lift {ℓ} : {A : Type ℓ} → Result A → M A
lift (ok a) tx = ok (a, tx)
lift (err e) tx = err e

unfoldable pub fail {ℓ} : {A : Type ℓ} → Exit → M A
fail e tx = err e

unfoldable pub gets {ℓ} : {A : Type ℓ} → (Tx → A) → M A
gets f tx = ok (f tx, tx)

unfoldable pub modify : (Tx → Tx) → M (Unit {0})
modify f tx = ok (tt, f tx)

infixl 5 ◌>>=◌ ◌>>◌
-- Opening this opens `pure`, `lift`, `fail`, `gets` and `modify` too.
unfoldable pub ◌>>=◌ {ℓ κ} : {A : Type ℓ} {B : Type κ} → M A → (A → M B) → M B
unfolding pure lift fail gets modify
◌>>=◌ m f tx = elim (m tx) [ err e ↦ err e | ok (a, tx') ↦ f a tx' ]

abbrev pub ◌>>◌ {ℓ} : {B : Type ℓ} → M (Unit {0}) → M B → M B
m >> k = m >>= λ _. k

module _ (fresh : Text → ℕ → Text) where
  -- `ids.next(kind)` and `createId(kind)`
  unfoldable pub next_id : Text → M Text
  next_id kind tx = ok (fresh kind tx.next_id, record tx { next_id = tx.next_id + 1 })

  -- `tx.append({ eventId: ids.next("event"), … })`
  unfoldable pub append : (workspace actor : Text) → ℕ → Happening → M (Unit {0})
  append workspace actor now h tx = ok (
    tt,
    record tx {
      events =
          tx.events
          ++ record {
            event_id = fresh (codes "event") tx.next_id;
            workspace_id = workspace;
            actor_session_id = actor;
            occurred_at = now;
            happening = h;
          }
            ∷ [];
      next_id = tx.next_id + 1;
    },
  )

-- A loop whose body may throw.
unfoldable pub for_each {ℓ} : {A : Type ℓ} → (A → M (Unit {0})) → List A → M (Unit {0})
for_each f [] tx = ok (tt, tx)
for_each f (x ∷ xs) tx = elim (f x tx) [ err e ↦ err e | ok (u, tx') ↦ for_each f xs tx' ]
