-- ===== src/Router/Stages.antt =====
-- The stages of an offer, for any property of what an offer does: a property that holds of the
-- quiet ends, of a refused renewal and of an asking holds of the whole.
use mathlib.Core.List.{Memᴰ}
use agents_can_communicate.Base.Members.{filter-Memᴰ}
use agents_can_communicate.Base.{
  ℕ, ◌≡◌, inl, inr, refl, Bool, true, not, ◌&&◌, Option, none, some, List, [], ◌∷◌, arith, Text,
  eq_iff, includes, filter, Bool-cases, leb,
}
use agents_can_communicate.Protocol.States.{ReceiptState, same_state}
use agents_can_communicate.Protocol.Messages.{MessageKind, is_decision}
use agents_can_communicate.Core.Records.{Session}
use agents_can_communicate.Core.Bindings.{Binding, Mode, has_mode}
use agents_can_communicate.Router.Refresh.{same_endpoint, refresh_expired, Renewal}
use agents_can_communicate.Router.Reasons.{native_reason_codes}
use agents_can_communicate.Router.{
  Adapter, Answers, Step, Outcome, durable, permits, policy_of, has_native, live_capable, after,
}
use agents_can_communicate.Router.Offering.{
  belongs_to, still_live, sole, ask, hand_off, of_current_sessions, confirm, renewed, by_code,
  by_renewal, lease_moved, refused_renewal, proceed, choose, of_reachable, of_permitted,
  of_bindings, of_sessions, offer_to, without_live_transport, offline, end_of,
}

-- The transport of an offer, where the outcome is one.
abbrev pub offered_by : Outcome → List Text
offered_by (Outcome.offered transport) = transport ∷ []
offered_by _ = []

-- The adapter can take a live offer.
abbrev pub IsCapable : Option Adapter → Type 0
IsCapable o =
    (adapter : Adapter) × (o ≡ some adapter)
    × (adapter.live_push ≡ true)
    × (has_native adapter.native ≡ true)

sole-singleton {ℓ} : {A : Type ℓ} (xs : List A) (x : A) → sole xs ≡ some x → xs ≡ x ∷ []
unfolding sole
sole-singleton [] x h = cc
sole-singleton (y ∷ []) x h = ground arith
sole-singleton (y ∷ z ∷ ys) x h = cc

-- The only one that passes does pass, and it was there.
sole-filter {ℓ} :
    {A : Type ℓ} (p : A → Bool) (xs : List A) (x : A) → sole (filter p xs) ≡ some x → p x ≡ true
sole-filter p xs x h =
    (filter-Memᴰ p x xs (rw (sole-singleton (filter p xs) x h) (Memᴰ.head refl))).1

module _ (version_rule : Option Adapter → Option Text → Option Text)
    (adapter_of : Text → Option Adapter) (kind : MessageKind) (now : ℕ) (a : Answers) where
  -- What was found of the binding that is chosen, before the last readings.
  pub record IsReady (b : Binding) : Type 0 where
    pub queued : same_state a.receipt ReceiptState.queued ≡ true
    pub target : (s : Session) × (a.live_sessions ≡ s ∷ []) × (belongs_to s b ≡ true)
    pub capable : IsCapable (adapter_of b.adapter_id)

  IsReady-same : (b c : Binding) → same_endpoint c b ≡ true → IsReady b → IsReady c
  unfolding same_endpoint belongs_to
  IsReady-same b c h ready =
      let i = (eq_iff c.session_id b.session_id).0 (ground arith) in
      let g = (eq_iff c.generation b.generation).0 (ground arith) in
      let d = (eq_iff c.adapter_id b.adapter_id).0 (ground arith) in
      let (t, first, his) = ready.target in
      record {
        queued = ready.queued;
        target = (t, first, rw (i, g) his);
        capable = rw d ready.capable;
      }

  live_capable-IsCapable :
      (o : Option Adapter) (b : Binding) → live_capable o b ≡ true → IsCapable o
  unfolding live_capable
  live_capable-IsCapable none b h = cc
  live_capable-IsCapable (some ad) b h = (ad, refl, ground arith, ground arith)

  module _ (P : Step → Type 0) (quiet : (o : Outcome) → offered_by o ≡ [] → P ([], o))
      (refusal : (b : Binding) (code : Text) → P (refused_renewal b code))
      (moved : (b : Binding) (o : Option ℕ) (st : Step) → P st → P (after (lease_moved b o) st))
      (asking : (chosen b : Binding) (s : Session)
        → IsReady chosen
        → a.current_sessions ≡ s ∷ []
        → belongs_to s chosen ≡ true
        → permits (policy_of (a.current_policy chosen)) kind ≡ true
        → (is_decision kind ≡ true → a.is_head ≡ true)
        → still_live chosen a.clock b ≡ true
        → P (ask version_rule adapter_of kind now a chosen (some b))) where
    without_live_transport_P : (o : Option (Text × Option Text)) → P (without_live_transport o)
    unfolding without_live_transport durable
    without_live_transport_P none = quiet _ refl
    without_live_transport_P (some (reason, launch)) =
        elim (Bool-cases (includes reason native_reason_codes)) [
          | inl e ↦ rw e (quiet _ refl)
          | inr e ↦ rw e (quiet _ refl)
        ]

    offline_P : (o : Option Text) → P (offline o)
    unfolding offline durable
    offline_P none = quiet _ refl
    offline_P (some reason) = quiet _ refl

    ask_fine :
        (chosen : Binding) (s : Session) (o : Option Binding)
        → IsReady chosen
        → a.current_sessions ≡ s ∷ []
        → belongs_to s chosen ≡ true
        → permits (policy_of (a.current_policy chosen)) kind ≡ true
        → (is_decision kind ≡ true → a.is_head ≡ true)
        → ((b : Binding) → o ≡ some b → still_live chosen a.clock b ≡ true)
        → P (ask version_rule adapter_of kind now a chosen o)
    ask_fine chosen s none ready one mine allowed head live = unfold ask durable in quiet _ refl
    ask_fine chosen s (some b) ready one mine allowed head live =
        asking chosen b s ready one mine allowed head (live b refl)

    hand_off_fine :
        (b : Binding) (s : Session)
        → IsReady b
        → a.current_sessions ≡ s ∷ []
        → permits (policy_of (a.current_policy b)) kind ≡ true
        → P (hand_off version_rule adapter_of kind now a b (some s))
    unfolding hand_off durable
    hand_off_fine b s ready one allowed = elim (Bool-cases (belongs_to s b)) [
      | inr e ↦ rw e (quiet _ refl)
      | inl e ↦ elim (Bool-cases (is_decision kind && not a.is_head)) [
        | inl d ↦ rw (e, d) (quiet _ refl)
        | inr d ↦
            rw (e, d)
              (ask_fine b s (sole (filter (still_live b a.clock) a.bindings_now)) ready one e
                allowed (λ h. ground arith)
                (λ c h. sole-filter (still_live b a.clock) a.bindings_now c h))
      ]
    ]

    of_current_sessions_fine :
        (b : Binding) (ss : List Session)
        → IsReady b
        → permits (policy_of (a.current_policy b)) kind ≡ true
        → a.current_sessions ≡ ss
        → P (of_current_sessions version_rule adapter_of kind now a b ss)
    unfolding of_current_sessions hand_off durable
    of_current_sessions_fine b [] ready allowed same = quiet _ refl
    of_current_sessions_fine b (s ∷ []) ready allowed same = hand_off_fine b s ready same allowed
    of_current_sessions_fine b (s ∷ t ∷ ss) ready allowed same = quiet _ refl

    confirm_fine : (b : Binding) → IsReady b → P (confirm version_rule adapter_of kind now a b)
    unfolding confirm durable
    confirm_fine b ready = elim (Bool-cases (permits (policy_of (a.current_policy b)) kind)) [
      | inr e ↦ rw e (quiet _ refl)
      | inl e ↦ rw e (of_current_sessions_fine b a.current_sessions ready e refl)
    ]

    renewed_fine :
        (b : Binding) (o : Option Binding)
        → IsReady b
        → ((c : Binding) → o ≡ some c → same_endpoint c b ≡ true)
        → P (renewed version_rule adapter_of kind now a b o)
    unfolding renewed durable
    renewed_fine b none ready same = quiet _ refl
    renewed_fine b (some c) ready same = confirm_fine c (IsReady-same b c (same c refl) ready)

    by_code_fine :
        (b : Binding) (o : Option Text)
        → IsReady b
        → P (by_code version_rule adapter_of kind now a b o)
    unfolding by_code
    by_code_fine b (some code) ready = refusal b code
    by_code_fine b none ready =
        renewed_fine b _ ready
          (λ c h. sole-filter (λ (d : Binding). same_endpoint d b) a.renewed_bindings c h)

    by_renewal_fine :
        (b : Binding) (r : Renewal)
        → IsReady b
        → P (by_renewal version_rule adapter_of kind now a b r)
    unfolding by_renewal
    by_renewal_fine b r ready =
        moved b r.lease_until (by_code version_rule adapter_of kind now a b r.error_code)
          (by_code_fine b r.error_code ready)

    proceed_fine : (b : Binding) → IsReady b → P (proceed version_rule adapter_of kind now a b)
    unfolding proceed
    proceed_fine b ready = elim (Bool-cases (leb b.lease_until now)) [
      | inl e ↦ rw e (by_renewal_fine b (refresh_expired a.refresh_answers b) ready)
      | inr e ↦ rw e (confirm_fine b ready)
    ]

    choose_fine :
        (bs : List Binding)
        → ((b : Binding) → Memᴰ b bs → IsReady b)
        → P (choose version_rule adapter_of kind now a bs)
    unfolding choose durable
    choose_fine [] ready = quiet _ refl
    choose_fine (b ∷ []) ready = proceed_fine b (ready b (Memᴰ.head refl))
    choose_fine (b ∷ c ∷ bs) ready = quiet _ refl

    module _ (s : Session) (queued : same_state a.receipt ReceiptState.queued ≡ true)
        (one : a.live_sessions ≡ s ∷ []) where
      abbrev AllMine : List Binding → Type 0
      AllMine bs = (b : Binding) → Memᴰ b bs → belongs_to s b ≡ true

      of_reachable_fine :
          (bs : List Binding) → AllMine bs → P (of_reachable version_rule adapter_of kind now a bs)
      unfolding of_reachable durable
      of_reachable_fine [] mine = quiet _ refl
      of_reachable_fine (x ∷ xs) mine = choose_fine _ (λ b i.
          let (j, can) =
            filter-Memᴰ (λ (c : Binding). live_capable (adapter_of c.adapter_id) c) b (x ∷ xs) i in
          record {
            queued = queued;
            target = (s, one, mine b j);
            capable = live_capable-IsCapable (adapter_of b.adapter_id) b can;
          })

      of_permitted_fine :
          (bs : List Binding) → AllMine bs → P (of_permitted version_rule adapter_of kind now a bs)
      unfolding of_permitted durable
      of_permitted_fine [] mine = quiet _ refl
      of_permitted_fine (x ∷ xs) mine = of_reachable_fine _ (λ b i.
          mine b
            (filter-Memᴰ (λ (c : Binding). has_mode Mode.live_push c.available_modes) b (x ∷ xs)
              i).0)

      of_bindings_fine :
          (bs : List Binding) → AllMine bs → P (of_bindings version_rule adapter_of kind now a bs)
      unfolding of_bindings
      of_bindings_fine [] mine = without_live_transport_P a.native_reason
      of_bindings_fine (x ∷ xs) mine = of_permitted_fine _ (λ b i.
          mine b
            (filter-Memᴰ (λ (c : Binding). permits (policy_of (a.policy c)) kind) b (x ∷ xs) i).0)

    of_sessions_fine :
        (ss : List Session)
        → same_state a.receipt ReceiptState.queued ≡ true
        → a.live_sessions ≡ ss
        → P (of_sessions version_rule adapter_of kind now a ss)
    unfolding of_sessions durable
    of_sessions_fine [] queued same = offline_P (end_of a.last_session)
    of_sessions_fine (s ∷ []) queued same =
        of_bindings_fine s queued same _ (λ b i. (filter-Memᴰ (belongs_to s) b a.bindings i).1)
    of_sessions_fine (s ∷ t ∷ ss) queued same = quiet _ refl

    pub offer_to_all : P (offer_to version_rule adapter_of kind now a)
    unfolding offer_to
    offer_to_all = elim (Bool-cases (same_state a.receipt ReceiptState.queued)) [
      | inl e ↦ rw e (of_sessions_fine a.live_sessions e refl)
      | inr e ↦ rw e (quiet _ refl)
    ]
