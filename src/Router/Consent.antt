-- ===== src/Router/Consent.antt =====
-- The transport is asked at most once for a recipient, and only with the consent and the liveness
-- that were read last.
use agents_can_communicate.Base.{
  ℕ, ◌<◌, ◌≡◌, ◌⊎◌, inl, inr, refl, ◌∙◌, Bool, true, false, Option, none, some, List, [], ◌∷◌, ◌++◌,
  arith, Text, eq_iff,
}
use agents_can_communicate.Protocol.States.{ReceiptState, same_state}
use agents_can_communicate.Protocol.Messages.{MessageKind, is_decision}
use agents_can_communicate.Core.Records.{Session}
use agents_can_communicate.Core.Bindings.{Binding, Mode, has_mode}
use agents_can_communicate.Router.Refresh.{same_endpoint}
use agents_can_communicate.Router.Stages.{IsCapable, IsReady, offer_to_all}
use agents_can_communicate.Router.{
  Action, Adapter, Answers, Step, Response, durable, permits, policy_of, settle, fail_with, succeed,
  wake_up, record_failure, after,
}
use agents_can_communicate.Router.Offering.{
  belongs_to, still_live, hear, ask, lease_moved, refused_renewal, offer_to,
}

-- The bindings with which the adapter is asked.
abbrev pub asked_of : List Action → List Binding
asked_of [] = []
asked_of (Action.asked b ∷ acts) = b ∷ asked_of acts
asked_of (_ ∷ acts) = asked_of acts

asked_of-append_nil : (xs ys : List Action) → asked_of xs ≡ [] → asked_of (xs ++ ys) ≡ asked_of ys
asked_of-append_nil [] ys h = refl
asked_of-append_nil (Action.asked b ∷ xs) ys h = cc
asked_of-append_nil (Action.moved_lease b l ∷ xs) ys h = asked_of-append_nil xs ys h
asked_of-append_nil (Action.record_failed b t c ∷ xs) ys h = asked_of-append_nil xs ys h
asked_of-append_nil (Action.record_succeeded b t ∷ xs) ys h = asked_of-append_nil xs ys h
asked_of-append_nil (Action.observed b c ∷ xs) ys h = asked_of-append_nil xs ys h

module _ (adapter_of : Text → Option Adapter) (kind : MessageKind) (a : Answers) where
  pub record IsAllowed (b : Binding) : Type 0 where
    pub queued : same_state a.receipt ReceiptState.queued ≡ true
    pub target : (s : Session) × (a.live_sessions ≡ s ∷ []) × (belongs_to s b ≡ true)
    pub session : (s : Session) × (a.current_sessions ≡ s ∷ []) × (belongs_to s b ≡ true)
    -- The policy is the one that was read last.
    pub consent : permits b.live_policy kind ≡ true
    pub mode : has_mode Mode.live_push b.available_modes ≡ true
    pub lease : a.clock < b.lease_until
    pub capable : IsCapable (adapter_of b.adapter_id)
    pub headship : is_decision kind ≡ true → a.is_head ≡ true

  abbrev pub IsFine : Step → Type 0
  IsFine st = (asked_of st.0 ≡ []) ⊎ ((b : Binding) × (asked_of st.0 ≡ b ∷ []) × IsAllowed b)

module _ (version_rule : Option Adapter → Option Text → Option Text)
    (adapter_of : Text → Option Adapter) (kind : MessageKind) (now : ℕ) (a : Answers) where
  settle_quiet :
      (ad : Option Adapter) (b : Binding) (is_recorded : Bool) (r : Response)
      → asked_of (settle version_rule ad b is_recorded r).0 ≡ []
  unfolding settle fail_with record_failure wake_up succeed
  settle_quiet ad b true r = ground arith
  settle_quiet ad b false r = ground arith

  hear_quiet :
      (ad : Option Adapter) (b : Binding) (o : Option Response)
      → asked_of (hear version_rule adapter_of kind now a ad b o).0 ≡ []
  unfolding hear fail_with record_failure
  hear_quiet ad b none = refl
  hear_quiet ad b (some r) = settle_quiet ad b a.is_recorded r

  still_fine :
      (s : Session) (chosen b : Binding)
      → belongs_to s chosen ≡ true
      → still_live chosen a.clock b ≡ true
      → (belongs_to s b ≡ true)
        × (b.adapter_id ≡ chosen.adapter_id)
        × (has_mode Mode.live_push b.available_modes ≡ true)
        × (a.clock < b.lease_until)
  unfolding belongs_to still_live same_endpoint
  still_fine s chosen b h l =
      let i = (eq_iff b.session_id chosen.session_id).0 (ground arith) in
      let g = (eq_iff b.generation chosen.generation).0 (ground arith) in
      let d = (eq_iff b.adapter_id chosen.adapter_id).0 (ground arith) in
      (rw (i, g) (ground arith), d, ground arith, ground arith)

  ask-IsFine :
      (chosen : Binding) (s : Session) (b : Binding)
      → IsReady version_rule adapter_of kind now a chosen
      → a.current_sessions ≡ s ∷ []
      → belongs_to s chosen ≡ true
      → permits (policy_of (a.current_policy chosen)) kind ≡ true
      → (is_decision kind ≡ true → a.is_head ≡ true)
      → still_live chosen a.clock b ≡ true
      → IsFine adapter_of kind a (ask version_rule adapter_of kind now a chosen (some b))
  unfolding ask durable after belongs_to
  ask-IsFine chosen s b ready one mine allowed head live =
      let (i, d, m, l) = still_fine s chosen b mine live in
      let (t, first, his) = ready.target in
      let (i', _, _, _) = still_fine t chosen b his live in
      inr (
        record b { live_policy = policy_of (a.current_policy chosen) },
        rw (hear_quiet (adapter_of chosen.adapter_id) chosen a.response) refl,
        record {
          queued = ready.queued;
          target = (t, first, i');
          session = (s, one, i);
          consent = allowed;
          mode = m;
          lease = l;
          capable = rw d ready.capable;
          headship = head;
        },
      )

  after-IsFine :
      (acts : List Action) (st : Step)
      → asked_of acts ≡ []
      → IsFine adapter_of kind a st
      → IsFine adapter_of kind a (after acts st)
  unfolding after
  after-IsFine acts st quiet (inl none_asked) =
      inl (asked_of-append_nil acts st.0 quiet ∙ none_asked)
  after-IsFine acts st quiet (inr (b, once, allowed)) =
      inr (b, asked_of-append_nil acts st.0 quiet ∙ once, allowed)

  lease_moved_quiet : (b : Binding) (o : Option ℕ) → asked_of (lease_moved b o) ≡ []
  unfolding lease_moved
  lease_moved_quiet b none = refl
  lease_moved_quiet b (some l) = refl

  refused_renewal_quiet : (b : Binding) (code : Text) → asked_of (refused_renewal b code).0 ≡ []
  unfolding refused_renewal fail_with record_failure
  refused_renewal_quiet b code = ground arith

  -- For one recipient the adapter is asked at most once, and only where the receipt was queued, the
  -- recipient had one live session, which is the one session that was live last, in the generation
  -- of the binding; where the policy that was read last permits the kind of the message; where the
  -- binding that was read last has the live mode and a lease that lasts; where the adapter can take
  -- a live offer; and where a decision is a head still.
  pub offer_to_consent : IsFine adapter_of kind a (offer_to version_rule adapter_of kind now a)
  offer_to_consent =
      offer_to_all version_rule adapter_of kind now a (IsFine adapter_of kind a) (λ o _. inl refl)
        (λ b code. inl (refused_renewal_quiet b code))
        (λ b o st f. after-IsFine (lease_moved b o) st (lease_moved_quiet b o) f)
        (λ chosen b s ready one mine allowed head live.
          ask-IsFine chosen s b ready one mine allowed head live)
