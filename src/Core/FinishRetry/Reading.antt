-- ===== src/Core/FinishRetry/Reading.antt =====
-- The log that a finish leaves, and that it is read back whole.
use agents_can_communicate.Base.{
  ◌≡◌, refl, ap, ◌∙◌, Bool, true, false, none, some, List, [], ◌∷◌, ◌++◌, map, arith, Text, ◌==◌,
  eq_iff, any, distinct, All, ok,
}
use agents_can_communicate.Core.Records.{Session, Claim, Happening, Event, is_open}
use agents_can_communicate.Core.FinishRetry.{
  project_released_claim, split_at, is_record, is_opened, is_closed, finish_ids, are_releases,
  gives_back, fact_of, claim_projections, released_by, reconstruct_finish_retry, closes, opens,
  records,
}
use agents_can_communicate.Core.FinishRetry.Facts.{last_fact-append, IsKnown, IsLogged, All-IsKnown}

split_at-append :
    (p : Event → Bool) (xs : List Event) (e : Event) (ys : List Event)
    → any p xs ≡ false
    → p e ≡ true
    → split_at p (xs ++ e ∷ ys) ≡ some (xs, (e, ys))
unfolding split_at any
split_at-append p [] e ys quiet h = rw h refl
split_at-append p (x ∷ xs) e ys quiet h =
    let no_x : p x ≡ false = ground arith in
    rw (no_x, split_at-append p xs e ys (ground arith) h) refl

pub append_nil {ℓ} : {A : Type ℓ} (xs : List A) → xs ≡ xs ++ []
append_nil [] = refl
append_nil (x ∷ xs) = ap (λ t. x ∷ t) (append_nil xs)

pub append_assoc {ℓ} : {A : Type ℓ} (xs ys zs : List A) → (xs ++ ys) ++ zs ≡ xs ++ (ys ++ zs)
append_assoc [] ys zs = refl
append_assoc (x ∷ xs) ys zs = ap (λ t. x ∷ t) (append_assoc xs ys zs)

abbrev pub ids_of : List Claim → List Text
ids_of cs = map (λ (c : Claim). c.claim_id) cs

All-map {ℓ κ μ} :
    {A : Type ℓ} (P : A → Type κ) (Q : A → Type μ) (xs : List A)
    → ((x : A) → P x → Q x)
    → All P xs
    → All Q xs
All-map P Q [] f all = tt
All-map P Q (x ∷ xs) f (h, all) = (f x h, All-map P Q xs f all)

any-append_false :
    (p : Event → Bool) (xs ys : List Event)
    → any p xs ≡ false
    → any p ys ≡ false
    → any p (xs ++ ys) ≡ false
unfolding any
any-append_false p [] ys h k = k
any-append_false p (x ∷ xs) ys h k = ground (arith, any-append_false p xs ys)

-- The event gives the claim back, on behalf of the session that owned it.
pub record IsRelease (session_id : Text) (e : Event) (c : Claim) : Type 0 where
  pub by_session : e.actor_session_id ≡ session_id
  pub gives : e.happening ≡ Happening.claim_released c.claim_id none none c.generation

-- One such event for each of the claims, in order.
pub data AreReleases (session_id : Text) : List Event → List Claim → Type 0 where
  no_more : AreReleases session_id [] []
  one_more :
      (e : Event) (c : Claim) {es : List Event} {cs : List Claim}
      → IsRelease session_id e c
      → AreReleases session_id es cs
      → AreReleases session_id (e ∷ es) (c ∷ cs)

-- What a finish appends: the record of its message, a release of each claim, and the close.
pub record IsFinishLog (session : Session) (message_id : Text) (cs : List Claim) (log : List Event)
    : Type 0 where
  pub recorded : Event
  pub releases : List Event
  pub ending : Event
  pub thread_id : Text
  pub recipients : List Text
  pub whole : log ≡ recorded ∷ (releases ++ ending ∷ [])
  pub recorded_by : recorded.actor_session_id ≡ session.session_id
  pub records_it : recorded.happening ≡ Happening.message_recorded message_id thread_id recipients
  pub released : AreReleases session.session_id releases cs
  pub closed_by : ending.actor_session_id ≡ session.session_id
  pub closes_it :
      ending.happening ≡ Happening.session_finished message_id session.generation (ids_of cs)

module _ (session_id : Text) where
  are_releases-AreReleases :
      {es : List Event} {cs : List Claim}
      → AreReleases session_id es cs
      → are_releases session_id es (ids_of cs) ≡ true
  unfolding are_releases gives_back
  are_releases-AreReleases no_more = refl
  are_releases-AreReleases (one_more e c r more) =
      rw
        (
          r.gives,
          r.by_session,
          (eq_iff c.claim_id c.claim_id).1 refl,
          (eq_iff session_id session_id).1 refl,
          are_releases-AreReleases more,
        )
        refl

  none_closes :
      {es : List Event} {cs : List Claim}
      → AreReleases session_id es cs
      → any (is_closed session_id) es ≡ false
  unfolding any is_closed closes
  none_closes no_more = refl
  none_closes (one_more e c r more) = rw (r.gives, none_closes more) refl

  none_opens :
      {es : List Event} {cs : List Claim}
      → AreReleases session_id es cs
      → any (is_opened session_id) es ≡ false
  unfolding any is_opened opens
  none_opens no_more = refl
  none_opens (one_more e c r more) = rw (r.gives, none_opens more) refl

  says_nothing :
      (e : Event) (c : Claim) (id : Text) → IsRelease session_id e c → fact_of id e.happening ≡ none
  unfolding fact_of
  says_nothing e c id r = rw r.gives refl

  projections-AreReleases :
      {es : List Event} {cs : List Claim} (before : List Event)
      → AreReleases session_id es cs
      → All (IsKnown before) cs
      → claim_projections before es (ids_of cs) ≡ ok (map project_released_claim cs)
  unfolding claim_projections project_released_claim
  projections-AreReleases before no_more known = refl
  projections-AreReleases before (one_more e c {es} {cs} r more) (k, known) =
      let on = projections-AreReleases (before ++ e ∷ []) more (
        All-map _ _ cs
          (λ d h. last_fact-append d.claim_id before e (says_nothing e c d.claim_id r) ∙ h)
          known) in
      let fact = last_fact-append c.claim_id before e (says_nothing e c c.claim_id r) ∙ k in
      rw (fact, on) refl

module _ (session : Session) (message_id : Text) (cs : List Claim) where
  recorded-fact_of :
      (log : List Event) (h : IsFinishLog session message_id cs log) (id : Text)
      → fact_of id h.recorded.happening ≡ none
  unfolding fact_of
  recorded-fact_of log h id = rw h.records_it refl

  released_again :
      (before log : List Event) (claims : List Claim) (h : IsFinishLog session message_id cs log)
      → distinct (ids_of cs) ≡ true
      → All (IsKnown before) cs
      → any (λ (c : Claim). c.owner_session_id == session.session_id) claims ≡ false
      → released_by session message_id (before ++ h.recorded ∷ []) h.releases h.ending claims
        ≡ ok (map project_released_claim cs)
  unfolding released_by finish_ids
  released_again before log claims h apart known free =
      let read = projections-AreReleases session.session_id (before ++ h.recorded ∷ []) h.released (
        All-map _ _ cs
          (λ d k.
            last_fact-append d.claim_id before h.recorded (recorded-fact_of log h d.claim_id) ∙ k)
          known) in
      rw
        (
          h.closes_it,
          (eq_iff message_id message_id).1 refl,
          (eq_iff session.generation session.generation).1 refl,
          apart,
          are_releases-AreReleases session.session_id h.released,
          read,
          free,
        )
        refl

  recorded-is_record :
      (log : List Event) (h : IsFinishLog session message_id cs log)
      → is_record message_id session.session_id h.recorded ≡ true
  unfolding is_record records
  recorded-is_record log h =
      rw
        (
          h.records_it,
          h.recorded_by,
          (eq_iff message_id message_id).1 refl,
          (eq_iff session.session_id session.session_id).1 refl,
        )
        refl

  close-is_closed :
      (log : List Event) (h : IsFinishLog session message_id cs log)
      → is_closed session.session_id h.ending ≡ true
  unfolding is_closed closes
  close-is_closed log h =
      rw (h.closes_it, h.closed_by, (eq_iff session.session_id session.session_id).1 refl) refl

  close-is_opened :
      (log : List Event) (h : IsFinishLog session message_id cs log)
      → is_opened session.session_id h.ending ≡ false
  unfolding is_opened opens
  close-is_opened log h = rw h.closes_it refl

  quiet_after :
      (log later : List Event) (h : IsFinishLog session message_id cs log)
      → any (is_opened session.session_id) later ≡ false
      → any (is_opened session.session_id) (h.releases ++ h.ending ∷ later) ≡ false
  unfolding any
  quiet_after log later h stays =
      any-append_false _ h.releases (h.ending ∷ later) (none_opens session.session_id h.released)
        (rw (close-is_opened log h, stays) refl)

  append_later :
      (log later : List Event) (h : IsFinishLog session message_id cs log)
      → log ++ later ≡ h.recorded ∷ (h.releases ++ h.ending ∷ later)
  append_later log later h =
      rw h.whole (ap (λ t. h.recorded ∷ t) (append_assoc h.releases (h.ending ∷ []) later))

  -- What a finish left in the log is read back from there.
  pub read_back :
      (before log later : List Event) (claims : List Claim)
      → IsFinishLog session message_id cs log
      → is_open session.state ≡ false
      → any (is_record message_id session.session_id) before ≡ false
      → distinct (ids_of cs) ≡ true
      → All (IsLogged before) cs
      → any (is_opened session.session_id) later ≡ false
      → any (λ (c : Claim). c.owner_session_id == session.session_id) claims ≡ false
      → reconstruct_finish_retry session message_id (before ++ (log ++ later)) claims
        ≡ ok (map project_released_claim cs)
  unfolding reconstruct_finish_retry
  read_back before log later claims h closed new apart logged stays free =
      let first_split =
        split_at-append (is_record message_id session.session_id) before h.recorded
          (h.releases ++ h.ending ∷ later) new (recorded-is_record log h) in
      let last_split =
        split_at-append (is_closed session.session_id) h.releases h.ending later
          (none_closes session.session_id h.released) (close-is_closed log h) in
      rw (append_later log later h, closed, first_split, quiet_after log later h stays, last_split)
        (released_again before log claims h apart (All-IsKnown before cs logged) free)
