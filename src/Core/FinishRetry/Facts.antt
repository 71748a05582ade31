-- ===== src/Core/FinishRetry/Facts.antt =====
-- What the log says of a claim, and that `findLast` of packages/core/src/finish-retries.mjs finds it.
use agents_can_communicate.Base.{
  ◌≡◌, ◌≢◌, ◌⊎◌, inl, inr, refl, Bool-cases, none, some, List, [], ◌∷◌, ◌++◌, arith, Text, ◌==◌,
  eq_iff, All,
}
use agents_can_communicate.Core.Records.{Claim, ClaimMode, Happening, Event}
use agents_can_communicate.Core.FinishRetry.{fact_of, or_before, last_fact}

-- An event that says nothing of a claim does not change the last fact.
pub last_fact-append :
    (id : Text) (xs : List Event) (e : Event)
    → fact_of id e.happening ≡ none
    → last_fact id (xs ++ e ∷ []) ≡ last_fact id xs
unfolding last_fact or_before
last_fact-append id [] e h = h
last_fact-append id (x ∷ xs) e h = rw (last_fact-append id xs e h) refl

-- The event says what the claim is.
abbrev pub States : Claim → Event → Type 0
States c e =
    (e.happening ≡ Happening.claim_acquired c.claim_id c.resource c.mode)
    ⊎ (e.happening ≡ Happening.claim_renewed c.claim_id (some (c.resource, c.mode)))

-- The event says nothing of what a claim is: it neither acquires it nor renews it with its facts.
pub record IsSilent (claim_id : Text) (e : Event) : Type 0 where
  pub not_acquired :
      (resource : Text) (mode : ClaimMode)
      → e.happening ≢ Happening.claim_acquired claim_id resource mode
  pub not_renewed :
      (facts : Text × ClaimMode) → e.happening ≢ Happening.claim_renewed claim_id (some facts)

-- The last event of the log that says what the claim is says what it is now.
pub record IsLogged (log : List Event) (c : Claim) : Type 0 where
  pub earlier : List Event
  pub fact : Event
  pub later : List Event
  pub parted : log ≡ earlier ++ fact ∷ later
  pub states : States c fact
  pub silent : All (IsSilent c.claim_id) later

silent-fact_of :
    (id : Text) (h : Happening)
    → ((resource : Text) (mode : ClaimMode) → h ≢ Happening.claim_acquired id resource mode)
    → ((facts : Text × ClaimMode) → h ≢ Happening.claim_renewed id (some facts))
    → fact_of id h ≡ none
unfolding fact_of
silent-fact_of id (Happening.claim_acquired k resource mode) a r = elim (Bool-cases (k == id)) [
  | inl e ↦ absurd (a resource mode (rw ((eq_iff k id).0 e) refl))
  | inr n ↦ rw n refl
]
silent-fact_of id (Happening.claim_renewed k none) a r = ground arith
silent-fact_of id (Happening.claim_renewed k (some facts)) a r = elim (Bool-cases (k == id)) [
  | inl e ↦ absurd (r facts (rw ((eq_iff k id).0 e) refl))
  | inr n ↦ rw n refl
]
silent-fact_of id _ a r = refl

last_fact-silent : (id : Text) (es : List Event) → All (IsSilent id) es → last_fact id es ≡ none
unfolding last_fact or_before
last_fact-silent id [] all = refl
last_fact-silent id (e ∷ es) (s, all) =
    rw (last_fact-silent id es all, silent-fact_of id e.happening s.not_acquired s.not_renewed) refl

States-fact_of :
    (c : Claim) (e : Event)
    → States c e
    → fact_of c.claim_id e.happening ≡ some (c.resource, c.mode)
unfolding fact_of
States-fact_of c e (inl h) = rw (h, (eq_iff c.claim_id c.claim_id).1 refl) refl
States-fact_of c e (inr h) = rw (h, (eq_iff c.claim_id c.claim_id).1 refl) refl

last_fact-split :
    (id : Text) (xs : List Event) (e : Event) (ys : List Event) (facts : Text × ClaimMode)
    → last_fact id ys ≡ none
    → fact_of id e.happening ≡ some facts
    → last_fact id (xs ++ e ∷ ys) ≡ some facts
unfolding last_fact or_before
last_fact-split id [] e ys facts quiet h = rw (quiet, h) refl
last_fact-split id (x ∷ xs) e ys facts quiet h = rw (last_fact-split id xs e ys facts quiet h) refl

-- What is read of the claim is what it is.
abbrev pub IsKnown : List Event → Claim → Type 0
IsKnown before c = last_fact c.claim_id before ≡ some (c.resource, c.mode)

IsLogged-IsKnown : (log : List Event) (c : Claim) → IsLogged log c → IsKnown log c
IsLogged-IsKnown log c h = rw h.parted (
    last_fact-split c.claim_id h.earlier h.fact h.later _
      (last_fact-silent c.claim_id h.later h.silent) (States-fact_of c h.fact h.states))

pub All-IsKnown :
    (log : List Event) (cs : List Claim) → All (IsLogged log) cs → All (IsKnown log) cs
All-IsKnown log [] all = tt
All-IsKnown log (c ∷ cs) (h, all) = (IsLogged-IsKnown log c h, All-IsKnown log cs all)
