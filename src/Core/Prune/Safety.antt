-- ===== src/Core/Prune/Safety.antt =====
-- A pass that stops anywhere leaves no reference that it broke.
use agents_can_communicate.Base.{
  ◌≡◌, Bool, true, ◌&&◌, none, some, List, [], ◌∷◌, map, arith, Text, ◌==◌, eq_iff, if◌then◌else◌,
  includes, Bool-cases, inl, inr,
}
use agents_can_communicate.Base.Table.{Table, lookup, values, lookup-remove}
use agents_can_communicate.Core.Snapshot.{Snapshot}
use agents_can_communicate.Core.Prune.Order.{rank, has}
use agents_can_communicate.Core.Prune.{Kind, Entry, pick, ids, reclaim, reclaim_all}

module _ {ℓ} {A : Type ℓ} where
  -- What passes the test is picked.
  pub picked :
      (p : Text → A → Bool) (t : Table A) (k : Text) (a : A)
      → lookup k t ≡ some a
      → p k a ≡ true
      → includes k (ids (pick p t)) ≡ true
  unfolding lookup pick ids includes
  picked p [] k a h q = cc
  picked p ((j, b) ∷ t) k a h q = ground (arith, picked p t k a, eq_iff j k, eq_iff k j)

  -- What is picked passes the test.
  pub passed :
      (p : Text → A → Bool) (t : Table A) (k : Text)
      → includes k (ids (pick p t)) ≡ true
      → (a : A) × (p k a ≡ true)
  unfolding pick ids includes
  passed p [] k h = absurd (cc)
  passed p ((j, b) ∷ t) k h = elim (Bool-cases (p j b && k == j)) [
    | inl e ↦ (b, ground (arith, eq_iff k j))
    | inr n ↦ passed p t k (ground arith)
  ]

  pub picked-value :
      (f : A → Text) (p : Text → A → Bool) (t : Table A) (k : Text) (a : A)
      → lookup k t ≡ some a
      → p k a ≡ true
      → includes (f a) (map f (values (pick p t))) ≡ true
  unfolding lookup pick values includes
  picked-value f p [] k a h q = cc
  picked-value f p ((j, b) ∷ t) k a h q =
      ground (arith, picked-value f p t k a, eq_iff j k, eq_iff (f a) (f a))

-- What is left of each kind.
module _ (k : Text) where
  pub left_sessions :
      (s : Snapshot) (es : List Entry)
      → lookup k (reclaim_all s es).sessions
        ≡ (if has Kind.session k es then none else lookup k s.sessions)
  unfolding reclaim_all reclaim has rank
  left_sessions s [] = ground arith
  left_sessions s (e ∷ es) =
      ground (arith, left_sessions (reclaim s e) es, lookup-remove e.id k s.sessions)

  pub left_participants :
      (s : Snapshot) (es : List Entry)
      → lookup k (reclaim_all s es).participants
        ≡ (if has Kind.participant k es then none else lookup k s.participants)
  unfolding reclaim_all reclaim has rank
  left_participants s [] = ground arith
  left_participants s (e ∷ es) =
      ground (arith, left_participants (reclaim s e) es, lookup-remove e.id k s.participants)

  pub left_messages :
      (s : Snapshot) (es : List Entry)
      → lookup k (reclaim_all s es).messages
        ≡ (if has Kind.message k es then none else lookup k s.messages)
  unfolding reclaim_all reclaim has rank
  left_messages s [] = ground arith
  left_messages s (e ∷ es) =
      ground (arith, left_messages (reclaim s e) es, lookup-remove e.id k s.messages)

  pub left_intents :
      (s : Snapshot) (es : List Entry)
      → lookup k (reclaim_all s es).intents
        ≡ (if has Kind.intent k es then none else lookup k s.intents)
  unfolding reclaim_all reclaim has rank
  left_intents s [] = ground arith
  left_intents s (e ∷ es) =
      ground (arith, left_intents (reclaim s e) es, lookup-remove e.id k s.intents)

  pub left_receipts :
      (s : Snapshot) (es : List Entry)
      → lookup k (reclaim_all s es).receipts
        ≡ (if has Kind.receipt k es then none else lookup k s.receipts)
  unfolding reclaim_all reclaim has rank
  left_receipts s [] = ground arith
  left_receipts s (e ∷ es) =
      ground (arith, left_receipts (reclaim s e) es, lookup-remove e.id k s.receipts)

  pub left_claims :
      (s : Snapshot) (es : List Entry)
      → lookup k (reclaim_all s es).claims
        ≡ (if has Kind.claim k es then none else lookup k s.claims)
  unfolding reclaim_all reclaim has rank
  left_claims s [] = ground arith
  left_claims s (e ∷ es) =
      ground (arith, left_claims (reclaim s e) es, lookup-remove e.id k s.claims)
