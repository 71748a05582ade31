-- ===== src/Core/Claims/History.antt =====
-- Claims over time: any sequence of operations by any sessions, each reading the clock inside its
-- transaction, the clock never going back.
use agents_can_communicate.Base.{ℕ, ◌≤◌, ◌≡◌, Option, List, [], Text, ok}
use agents_can_communicate.Base.Table.{lookup}
use agents_can_communicate.Core.Records.{Claim, Session, Tx}
use agents_can_communicate.Core.Claims.{ClaimInput, acquire}
use agents_can_communicate.Core.Claims.Release.{Selectors, remove_claims, renew_claim}
use agents_can_communicate.Core.Claims.Exclusion.{IsExclusive, IsExclusive-later}
use agents_can_communicate.Core.Claims.Keeps.{
  acquire-IsExclusive, remove_claims-IsExclusive, renew_claim-IsExclusive,
}

-- The store at the time of the last transaction.
pub record Moment : Type 0 where
  pub now : ℕ
  pub tx : Tx

module _ (fresh : Text → ℕ → Text) where
  -- One committed transaction: an operation on claims that returned, or any other transaction,
  -- which leaves the claims alone. What was read before the transaction is any session at all.
  pub data Commit (m n : Moment) : Type 0 where
    acquires :
        (located : Option Session) (input : ClaimInput) (resources : List Text)
        (result : List Claim)
        → m.now ≤ n.now
        → acquire fresh located input resources n.now m.tx ≡ ok (result, n.tx)
        → Commit m n
    releases :
        (located ephemeral : Option Session) (session_id generation : Text) (selectors : Selectors)
        (authority : Option Text) (reason : Option Text) (result : List Claim)
        → m.now ≤ n.now
        → remove_claims fresh located ephemeral session_id generation selectors authority reason
            n.now m.tx
          ≡ ok (result, n.tx)
        → Commit m n
    renews :
        (located : Option Session) (session_id generation claim_id : Text) (lease : Option ℕ)
        (result : Claim)
        → m.now ≤ n.now
        → renew_claim fresh located session_id generation claim_id lease n.now m.tx
          ≡ ok (result, n.tx)
        → Commit m n
    others : m.now ≤ n.now → n.tx.claims ≡ m.tx.claims → Commit m n

  pub data Commits (m : Moment) : Moment → Type 0 where
    start : Commits m m
    then_commit : {k n : Moment} → Commits m k → Commit k n → Commits m n

  abbrev pub Excludes : Moment → Type 0
  Excludes m = IsExclusive m.now m.tx.claims

  Commit-Excludes : {m n : Moment} → Commit m n → Excludes m → Excludes n
  Commit-Excludes {m} {n} (acquires located input resources result t e) x =
      (acquire-IsExclusive fresh n.now located input resources m.tx
          (IsExclusive-later _ _ _ t x)).holds
        result n.tx e
  Commit-Excludes {m} {n} (releases l e s g sel a r result t q) x =
      (remove_claims-IsExclusive fresh n.now l e s g sel a r m.tx
          (IsExclusive-later _ _ _ t x)).holds
        result n.tx q
  Commit-Excludes {m} {n} (renews l s g c lease result t e) x =
      (renew_claim-IsExclusive fresh n.now l s g c lease m.tx (IsExclusive-later _ _ _ t x)).holds
        result n.tx e
  Commit-Excludes {m} {n} (others t e) x = record {
    apart = λ i j a b p q. (IsExclusive-later _ _ _ t x).apart i j a b (rw (← e) p) (rw (← e) q);
  }

  Commits-Excludes : {m n : Moment} → Commits m n → Excludes m → Excludes n
  Commits-Excludes start x = x
  Commits-Excludes (then_commit r c) x = Commit-Excludes c (Commits-Excludes r x)

  IsExclusive-nil : (m : Moment) → m.tx.claims ≡ [] → Excludes m
  unfolding lookup
  IsExclusive-nil m e = record { apart = λ i j a b p q. cc (rw e at p) }

  -- From a store with no claims, whatever transactions commit while the clock does not go back: at
  -- the last of them no two different sessions have live claims on overlapping resources, unless
  -- both claims are shared.
  pub claims_exclude : (m n : Moment) → m.tx.claims ≡ [] → Commits m n → Excludes n
  claims_exclude m n e r = Commits-Excludes r (IsExclusive-nil m e)
