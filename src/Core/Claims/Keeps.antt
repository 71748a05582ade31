-- ===== src/Core/Claims/Keeps.antt =====
-- The operations on claims keep mutual exclusion.
use agents_can_communicate.Base.{
  ℕ, ◌≡◌, refl, ◌∙◌, Bool, true, false, not, Option, none, some, List, [], ◌∷◌, arith, Text, eq_iff,
  any-includes, includes, includes_self, includes-cons, All, ok, Exit, require, required, found_in,
}
use agents_can_communicate.Base.Table.{Table, insert, values, lookup-insert, any-lookup}
use agents_can_communicate.Core.Records.{Claim, ClaimMode, Session, Happening, Tx}
use agents_can_communicate.Core.Transaction.{next_id, append}
use agents_can_communicate.Core.Transaction.Posts.{
  Post, Post-bind, Post-pure, Post-weaken, Post-for_each, Post-bind-lift, Post-bind-gets,
  Post-bind-modify,
}
use agents_can_communicate.Core.Claims.{
  ClaimInput, blocks, has_conflict, claim_record, claim_id_of, claim_records, write_claim, acquire,
  or_else,
}
use agents_can_communicate.Core.Claims.Release.{Selectors, remove_claim, remove_claims, renew_claim}
use agents_can_communicate.Core.Claims.Exclusion.{
  IsExclusive, IsClear, IsExclusive-insert, IsExclusive-remove, IsExclusive-renew,
}

-- What the owner writes does not block the owner.
blocks_own :
    (now : ℕ) (owner : Text) (mode : ClaimMode) (resource : Text) (c : Claim)
    → c.owner_session_id ≡ owner
    → blocks now owner mode resource c ≡ false
unfolding blocks
blocks_own now owner mode resource c h = ground (arith, eq_iff c.owner_session_id owner)

IsClear-insert :
    (now : ℕ) (owner : Text) (mode : ClaimMode) (resource k : Text) (c : Claim)
    (claims : Table Claim)
    → c.owner_session_id ≡ owner
    → IsClear now owner mode resource claims
    → IsClear now owner mode resource (insert k c claims)
IsClear-insert now owner mode resource k c claims h clear = record {
  free = λ j a p.
      ground
        (arith, lookup-insert k j c claims, clear.free j a, blocks_own now owner mode resource c);
}

-- A request with no conflict is clear on each of its resources.
IsClear-of_no_conflict :
    (now : ℕ) (owner : Text) (mode : ClaimMode) (names : List Text) (claims : Table Claim)
    (r : Text)
    → has_conflict now owner mode names (values claims) ≡ false
    → includes r names ≡ true
    → IsClear now owner mode r claims
unfolding has_conflict
IsClear-of_no_conflict now owner mode names claims r h e = record {
  free = λ k a p. any-lookup (blocks now owner mode r) claims k a (any-includes _ names r h e) p;
}

module _ (fresh : Text → ℕ → Text) (now : ℕ) where
  pub append-claims :
      (workspace actor : Text) (h : Happening) (tx : Tx)
      → Post (append fresh workspace actor now h) tx (λ _ s. s.claims ≡ tx.claims)
  unfolding append
  append-claims workspace actor h tx = record { holds = λ u s e. ground arith }

  next_id-claims :
      (kind : Text) (tx : Tx) → Post (next_id fresh kind) tx (λ _ s. s.claims ≡ tx.claims)
  unfolding next_id
  next_id-claims kind tx = record { holds = λ u s e. ground arith }

  claim_id_of-claims :
      (mine : Option Claim) (tx : Tx)
      → Post (claim_id_of fresh mine) tx (λ _ s. s.claims ≡ tx.claims)
  unfolding claim_id_of
  claim_id_of-claims none tx = next_id-claims _ tx
  claim_id_of-claims (some c) tx = Post-pure c.claim_id tx refl

  module _ (session : Session) (input : ClaimInput) (names : List Text) where
    abbrev asked_mode : ClaimMode
    asked_mode = or_else input.mode ClaimMode.exclusive

    -- A record that this request may write.
    abbrev IsAsked : Bool × Claim → Type 0
    IsAsked (is_new, c) =
        (c.owner_session_id ≡ session.session_id)
        × (c.mode ≡ asked_mode)
        × (includes c.resource names ≡ true)

    -- Between the writes of one request.
    record IsWriting (tx : Tx) : Type 0 where
      exclusion : IsExclusive now tx.claims
      clear :
          (r : Text)
          → includes r names ≡ true
          → IsClear now session.session_id asked_mode r tx.claims

    IsWriting-insert :
        (n : Bool) (c : Claim) (tx : Tx)
        → IsAsked (n, c)
        → IsWriting tx
        → IsWriting (record tx { claims = insert c.claim_id c tx.claims })
    IsWriting-insert n c tx (owner, mode, named) w = record {
      exclusion =
          IsExclusive-insert now c.claim_id c tx.claims
            (rw (owner, mode) (w.clear c.resource named)) w.exclusion;
      clear = λ r e.
          IsClear-insert now session.session_id asked_mode r c.claim_id c tx.claims owner
            (w.clear r e);
    }

    write_claim-IsWriting :
        (r : Bool × Claim) (tx : Tx)
        → IsAsked r
        → IsWriting tx
        → Post (write_claim fresh session now r) tx (λ _ s. IsWriting s)
    unfolding write_claim
    write_claim-IsWriting (n, c) tx a w =
        let v = IsWriting-insert n c tx a w in
        Post-bind-modify _ _ tx (
          Post-weaken _ _ (append-claims _ _ _ _)
            λ _ t e. record { exclusion = rw e v.exclusion; clear = λ r i. rw e (v.clear r i) })

    -- Building a record writes nothing.
    claim_record-IsAsked :
        (existing : List Claim) (r : Text) (tx : Tx)
        → includes r names ≡ true
        → Post
            (claim_record fresh session input now existing r)
            tx
            (λ c s. IsAsked c × (s.claims ≡ tx.claims))
    unfolding claim_record
    claim_record-IsAsked existing r tx i =
        Post-bind _ _ tx (claim_id_of-claims _ tx) λ claim_id s e.
          Post-bind _ _ s (next_id-claims _ s)
            λ generation t f. Post-bind-lift _ _ t λ _ _. Post-pure _ t ((refl, refl, i), f ∙ e)

    claim_records-IsAsked :
        (existing : List Claim) (rs : List Text) (tx : Tx)
        → All (λ (r : Text). includes r names ≡ true) rs
        → Post
            (claim_records fresh session input now existing rs)
            tx
            (λ cs s. All IsAsked cs × (s.claims ≡ tx.claims))
    unfolding claim_records
    claim_records-IsAsked existing [] tx a = Post-pure _ tx (tt, refl)
    claim_records-IsAsked existing (r ∷ rs) tx a =
        Post-bind _ _ tx (claim_record-IsAsked existing r tx a.0) λ c s (asked, e).
          Post-bind _ _ s (claim_records-IsAsked existing rs s a.1)
            λ cs t (others, f). Post-pure _ t ((asked, others), f ∙ e)

-- Every entry of a list is included in it.
All-includes :
    (xs ys : List Text)
    → All (λ (r : Text). includes r ys ≡ true) xs
    → (x : Text) → All (λ (r : Text). includes r (x ∷ ys) ≡ true) xs
All-includes [] ys a x = tt
All-includes (r ∷ xs) ys a x = (includes-cons r x ys a.0, All-includes xs ys a.1 x)

All-includes_self : (xs : List Text) → All (λ (r : Text). includes r xs ≡ true) xs
All-includes_self [] = tt
All-includes_self (x ∷ xs) = (includes_self x xs, All-includes xs xs (All-includes_self xs) x)

All-trivial : (cs : List Claim) → All (λ _. Unit {0}) cs
All-trivial [] = tt
All-trivial (c ∷ cs) = (tt, All-trivial cs)

no_conflict : (b : Bool) → not b ≡ true → b ≡ false
no_conflict b h = ground arith

-- A request that met no conflict may begin to write.
begin :
    (fresh : Text → ℕ → Text) (now : ℕ) (session : Session) (input : ClaimInput) (names : List Text)
    (tx s : Tx) {u : Unit {0}}
    → IsExclusive now tx.claims
    → require
        (not (
          has_conflict now session.session_id
            (or_else input.mode ClaimMode.exclusive)
            names
            (values tx.claims)))
        Exit.conflict
      ≡ ok u
    → s.claims ≡ tx.claims
    → IsWriting fresh now session input names s
begin fresh now session input names tx s {u} x free e = record {
  exclusion = rw e x;
  clear = λ r i. rw e (
      IsClear-of_no_conflict now session.session_id _ names tx.claims r
        (no_conflict _ (required _ _ u free)) i);
}

module _ (fresh : Text → ℕ → Text) (now : ℕ) where
  pub acquire-IsExclusive :
      (located : Option Session) (input : ClaimInput) (resources : List Text) (tx : Tx)
      → IsExclusive now tx.claims
      → Post (acquire fresh located input resources now) tx (λ _ s. IsExclusive now s.claims)
  unfolding acquire
  acquire-IsExclusive located input resources tx x = Post-bind-lift _ _ tx λ session _.
      Post-bind-lift _ _ tx λ names _. Post-bind-gets _ _ tx (
        Post-bind-lift _ _ tx λ owner _. Post-bind-gets _ _ tx (
          Post-bind-lift _ _ tx λ u free.
            Post-bind _ _ tx
              (claim_records-IsAsked fresh now session input names _ names tx
                (All-includes_self names))
              λ records s (asked, e).
                Post-bind _ _ s
                  (Post-for_each (IsAsked fresh now session input names)
                    (IsWriting fresh now session input names) (write_claim fresh session now)
                    (write_claim-IsWriting fresh now session input names) records s asked
                    (begin fresh now session input names tx s x free e))
                  λ _ t w. Post-pure _ t w.exclusion))

  remove_claim-IsExclusive :
      (session : Session) (authority : Option Text) (reason : Option Text) (c : Claim) (tx : Tx)
      → IsExclusive now tx.claims
      → Post
          (remove_claim fresh session authority reason now c)
          tx
          (λ _ s. IsExclusive now s.claims)
  unfolding remove_claim
  remove_claim-IsExclusive session authority reason c tx x = Post-bind-modify _ _ tx (
      Post-weaken _ _ (append-claims fresh now _ _ _ _)
        λ _ t e. rw e (IsExclusive-remove now c.claim_id tx.claims x))

  pub remove_claims-IsExclusive :
      (located ephemeral : Option Session) (session_id generation : Text) (selectors : Selectors)
      (authority : Option Text) (reason : Option Text) (tx : Tx)
      → IsExclusive now tx.claims
      → Post
          (remove_claims fresh located ephemeral session_id generation selectors authority reason
            now)
          tx
          (λ _ s. IsExclusive now s.claims)
  unfolding remove_claims
  remove_claims-IsExclusive located ephemeral session_id generation selectors authority reason tx
        x =
      Post-bind-lift _ _ tx λ session _. Post-bind-gets _ _ tx (
        Post-bind-lift _ _ tx λ owner _. Post-bind-gets _ _ tx (
          Post-bind-lift _ _ tx λ selected _. Post-bind-lift _ _ tx λ u _.
            Post-bind _ _ tx
              (Post-for_each (λ _. Unit {0}) (λ t. IsExclusive now t.claims)
                (remove_claim fresh session authority reason now)
                (λ c t _ y. remove_claim-IsExclusive session authority reason c t y) selected tx
                (All-trivial selected) x)
              λ _ t y. Post-pure _ t y))

  pub renew_claim-IsExclusive :
      (located : Option Session) (session_id generation claim_id : Text) (lease : Option ℕ)
      (tx : Tx)
      → IsExclusive now tx.claims
      → Post
          (renew_claim fresh located session_id generation claim_id lease now)
          tx
          (λ _ s. IsExclusive now s.claims)
  unfolding renew_claim
  renew_claim-IsExclusive located session_id generation claim_id lease tx x =
      Post-bind-lift _ _ tx λ session _. Post-bind-gets _ _ tx (
        Post-bind-lift _ _ tx λ owner _. Post-bind-gets _ _ tx (
          Post-bind-lift _ _ tx λ existing found. Post-bind-lift _ _ tx λ u _.
            Post-bind-lift _ _ tx λ v live.
              Post-bind _ _ tx (next_id-claims fresh now _ tx) λ renewal s e.
                Post-bind-lift _ _ s λ w _. Post-bind-modify _ _ s (
                  Post-bind _ _ _ (append-claims fresh now _ _ _ _) λ _ t f. Post-pure _ t (
                    rw (f, e)
                      (IsExclusive-renew now _ renewal claim_id existing tx.claims
                        (found_in _ _ _ found) (required _ _ v live) x)))))
