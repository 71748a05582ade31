-- ===== src/Router/Records.antt =====
-- What is recorded of an offer: never the endpoint, only codes of the closed vocabulary, and one
-- success exactly where the outcome says so.
use agents_can_communicate.Base.{
  ℕ, ◌≡◌, inl, inr, refl, sym, Bool, true, false, Option, none, some, List, [], ◌∷◌, arith, Text,
  codes, ◌==◌, eq_iff, includes, Bool-cases, is_some, All,
}
use agents_can_communicate.Protocol.Messages.{MessageKind}
use agents_can_communicate.Core.Bindings.{Binding}
use agents_can_communicate.Router.Reasons.{offer_errors}
use agents_can_communicate.Router.Stages.{offer_to_all, offered_by}
use agents_can_communicate.Router.{
  Action, Adapter, Answers, Step, Response, marker, safe_transport, safe_error, settle, fail_with,
  succeed, wake_up, record_failure, wakes, after,
}
use agents_can_communicate.Router.Offering.{hear, ask, refused_renewal, lease_moved, offer_to}

marker-other : (endpoint : Text) → marker endpoint == endpoint ≡ false
unfolding marker
marker-other endpoint = elim (Bool-cases (endpoint == codes "live-adapter")) [
  | inl e ↦ rw e (rw ((eq_iff endpoint (codes "live-adapter")).0 e) (unfold ◌==◌ in refl))
  | inr e ↦ rw e (
      ground
        (arith, eq_iff endpoint (codes "live-adapter"), eq_iff (codes "live-adapter") endpoint))
]

safe_transport-other :
    (value : Option Text) (endpoint : Text) → safe_transport value endpoint == endpoint ≡ false
unfolding safe_transport
safe_transport-other none endpoint = marker-other endpoint
safe_transport-other (some value) endpoint = ground (arith, marker-other endpoint)

-- What is recorded of an offer is safe to show to anybody.
abbrev pub IsSafe : Action → Type 0
IsSafe (Action.record_failed b transport code) =
    (transport == b.endpoint ≡ false) × (includes code offer_errors ≡ true)
IsSafe (Action.record_succeeded b transport) = transport == b.endpoint ≡ false
IsSafe _ = Unit

-- A success is recorded once where the outcome is an offer, and not at all otherwise.
abbrev pub successes : List Action → List Text
successes [] = []
successes (Action.record_succeeded b transport ∷ acts) = transport ∷ successes acts
successes (_ ∷ acts) = successes acts

abbrev pub IsTold : Step → Type 0
IsTold st = All IsSafe st.0 × (successes st.0 ≡ offered_by st.1)

fail_with-IsTold :
    (b : Binding) (value : Option Text) (code : Text)
    → includes code offer_errors ≡ true
    → IsTold (fail_with b value code)
unfolding fail_with record_failure
fail_with-IsTold b value code h = (((safe_transport-other value b.endpoint, h), (tt, tt)), refl)

safe_error-includes : (o : Option Text) → includes (safe_error o) offer_errors ≡ true
unfolding safe_error
safe_error-includes none = unfold includes offer_errors ◌==◌ in refl
safe_error-includes (some code) = elim (Bool-cases (includes code offer_errors)) [
  | inl e ↦ rw e e
  | inr e ↦ rw e (unfold includes offer_errors ◌==◌ in refl)
]

wake_up-IsTold : (b : Binding) (transport : Text) (r : Response) → IsTold (wake_up b transport r)
unfolding wake_up
wake_up-IsTold b transport r =
    (_, elim (Bool-cases r.is_queued) [ inl e ↦ rw e refl | inr e ↦ rw e refl ])

succeed-IsTold :
    (b : Binding) (o : Option Text) (is_recorded : Bool) → IsTold (succeed b o is_recorded)
unfolding succeed
succeed-IsTold b o true = ((safe_transport-other o b.endpoint, (tt, tt)), refl)
succeed-IsTold b o false =
    fail_with-IsTold b (some (safe_transport o b.endpoint)) _
      (unfold includes offer_errors ◌==◌ in refl)

denied-includes :
    (code : Text)
    → code == codes "transport_permission_denied" ≡ true
    → includes code offer_errors ≡ true
unfolding includes offer_errors
denied-includes code e = ground arith

module _ (version_rule : Option Adapter → Option Text → Option Text)
    (adapter_of : Text → Option Adapter) (kind : MessageKind) (now : ℕ) (a : Answers) where
  settle-IsTold :
      (ad : Option Adapter) (b : Binding) (is_recorded : Bool) (r : Response)
      → IsTold (settle version_rule ad b is_recorded r)
  unfolding settle
  settle-IsTold ad b is_recorded r = elim (Bool-cases r.accepted) [
    | inr e ↦ rw e (
        fail_with-IsTold b (some (safe_transport r.transport b.endpoint)) _
          (safe_error-includes r.safe_error_code))
    | inl e ↦ elim (Bool-cases (is_some (version_rule ad r.client_version))) [
      | inl v ↦
          rw (e, v)
            (fail_with-IsTold b (some (safe_transport r.transport b.endpoint))
              (codes "unsupported_client_version") (unfold includes offer_errors ◌==◌ in refl))
      | inr v ↦ elim (Bool-cases (wakes ad)) [
        | inl w ↦ rw (e, v, w) (wake_up-IsTold b _ r)
        | inr w ↦ rw (e, v, w) (succeed-IsTold b r.transport is_recorded)
      ]
    ]
  ]

  hear-IsTold :
      (ad : Option Adapter) (b : Binding) (o : Option Response)
      → IsTold (hear version_rule adapter_of kind now a ad b o)
  unfolding hear
  hear-IsTold ad b none =
      fail_with-IsTold b (some (codes "live-adapter")) _ (unfold includes offer_errors ◌==◌ in refl)
  hear-IsTold ad b (some r) = settle-IsTold ad b a.is_recorded r

  refused_renewal-IsTold : (b : Binding) (code : Text) → IsTold (refused_renewal b code)
  unfolding refused_renewal
  refused_renewal-IsTold b code = elim (Bool-cases (code == codes "transport_permission_denied")) [
    | inl e ↦ rw e (fail_with-IsTold b (some (codes "live-adapter")) code (denied-includes code e))
    | inr e ↦ rw e ((tt, tt), refl)
  ]

  moved-IsTold :
      (b : Binding) (o : Option ℕ) (st : Step) → IsTold st → IsTold (after (lease_moved b o) st)
  unfolding after lease_moved
  moved-IsTold b none st told = told
  moved-IsTold b (some lease) st (safe, same) = ((tt, safe), same)

  -- Whatever the services answer for a recipient: the transport that is recorded is not the endpoint
  -- of the binding; a failure is recorded with a code of OFFER_ERRORS; and one success is recorded,
  -- with its transport, where the outcome is an offer with that transport, and none otherwise.
  pub offer_to-IsTold : IsTold (offer_to version_rule adapter_of kind now a)
  offer_to-IsTold =
      offer_to_all version_rule adapter_of kind now a IsTold (λ o h. (tt, sym h))
        refused_renewal-IsTold moved-IsTold
        (λ chosen b s ready one mine allowed head live.
          unfold ask after in
          let (safe, same) = hear-IsTold (adapter_of chosen.adapter_id) chosen a.response in
          ((tt, safe), same))
