-- ===== src/Router/Offering.antt =====
-- `offerTo` and `offer` of packages/delivery-router/src/router.mjs, in stages from the last to the
-- first.
use agents_can_communicate.Base.{
  ℕ, Bool, not, ◌&&◌, Option, none, some, List, [], ◌∷◌, Text, codes, ◌==◌, if◌then◌else◌, includes,
  filter, ltb, leb,
}
use agents_can_communicate.Protocol.States.{ReceiptState, same_state}
use agents_can_communicate.Protocol.Messages.{Message, MessageKind, is_decision}
use agents_can_communicate.Core.Records.{Session, is_open}
use agents_can_communicate.Core.Bindings.{Binding, Mode, has_mode}
use agents_can_communicate.Router.Reasons.{native_reason_codes, is_launch_option}
use agents_can_communicate.Router.Refresh.{Renewal, refresh_expired, same_endpoint}
use agents_can_communicate.Router.{
  permits, Adapter, Response, Answers, Action, Outcome, Step, durable, policy_of, live_capable,
  fail_with, settle, after,
}

-- A session's own reason, from the closed vocabulary alone.
unfoldable pub option_of : Option Text → Option Text
unfolding is_launch_option
option_of none = none
option_of (some value) = if is_launch_option value then some value else none

-- `withoutLiveTransport`
unfoldable pub without_live_transport : Option (Text × Option Text) → Step
unfolding durable option_of native_reason_codes includes
without_live_transport none = durable (codes "no_live_transport")
without_live_transport (some (reason, launch)) =
    if includes reason native_reason_codes
    then ([], Outcome.waiting_for (codes "no_live_transport") reason (option_of launch))
    else durable (codes "no_live_transport")

-- `last?.state === "closed" && typeof last.endReason === "string"`
unfoldable pub end_of : Option Session → Option Text
unfolding is_open
end_of none = none
end_of (some s) = if is_open s.state then none else s.end_reason

unfoldable pub offline : (end_reason : Option Text) → Step
unfolding durable
offline none = durable (codes "recipient_offline")
offline (some reason) = ([], Outcome.ended (codes "recipient_offline") reason)

unfoldable pub belongs_to : Session → Binding → Bool
belongs_to s b = b.session_id == s.session_id && b.generation == s.generation

-- What is required of a binding immediately before the transport is asked.
unfoldable pub still_live : Binding → (clock : ℕ) → Binding → Bool
unfolding same_endpoint has_mode
still_live chosen clock b =
    same_endpoint b chosen && has_mode Mode.live_push b.available_modes && ltb clock b.lease_until

unfoldable pub sole {ℓ} : {A : Type ℓ} → List A → Option A
sole (x ∷ []) = some x
sole _ = none

-- `observeOffer` or `recordFailure`, of a lease that could not be moved on.
unfoldable pub refused_renewal : Binding → (code : Text) → Step
unfolding fail_with ◌==◌
refused_renewal b code =
    if code == codes "transport_permission_denied"
    then fail_with b (some (codes "live-adapter")) code
    else (Action.observed b (some code) ∷ [], Outcome.waiting code)

unfoldable pub lease_moved : Binding → Option ℕ → List Action
lease_moved b none = []
lease_moved b (some lease) = Action.moved_lease b lease ∷ []

-- One recipient: `adapter_of` is `adapterFor`.
module _ (version_rule : Option Adapter → Option Text → Option Text)
    (adapter_of : Text → Option Adapter) (kind : MessageKind) (now : ℕ) (a : Answers) where
  abbrev adapter : Binding → Option Adapter
  adapter b = adapter_of b.adapter_id

  unfoldable pub hear : Option Adapter → Binding → Option Response → Step
  unfolding fail_with settle
  hear adapter b none = fail_with b (some (codes "live-adapter")) (codes "transport_error")
  hear adapter b (some r) = settle version_rule adapter b a.is_recorded r

  -- `adapter.offerMessage({ binding: { …currentBindings[0], livePolicy: currentPolicy }, … })`
  unfoldable pub ask : (chosen : Binding) → Option Binding → Step
  unfolding durable hear after policy_of
  ask chosen none = durable (codes "recipient_unavailable")
  ask chosen (some b) =
      after (Action.asked (record b { live_policy = policy_of (a.current_policy chosen) }) ∷ [])
        (hear (adapter chosen) chosen a.response)

  -- The receiver is the sole live session still, and a decision is a head still.
  unfoldable pub hand_off : Binding → Option Session → Step
  unfolding durable ask still_live sole filter belongs_to is_decision
  hand_off b none = durable (codes "recipient_unavailable")
  hand_off b (some s) =
      if not (belongs_to s b)
      then durable (codes "recipient_unavailable")
      else if is_decision kind && not a.is_head
      then ([], Outcome.already a.later_receipt)
      else ask b (sole (filter (still_live b a.clock) a.bindings_now))

  unfoldable pub of_current_sessions : Binding → List Session → Step
  unfolding durable hand_off
  of_current_sessions b [] = hand_off b none
  of_current_sessions b (s ∷ []) = hand_off b (some s)
  of_current_sessions b (s ∷ t ∷ rest) = durable (codes "ambiguous_recipient_sessions")

  unfoldable pub confirm : Binding → Step
  unfolding durable permits policy_of of_current_sessions
  confirm b =
      if not (permits (policy_of (a.current_policy b)) kind)
      then durable (codes "delivery_disabled")
      else of_current_sessions b a.current_sessions

  unfoldable pub renewed : (chosen : Binding) → Option Binding → Step
  unfolding durable confirm
  renewed chosen none = durable (codes "recipient_unavailable")
  renewed chosen (some b) = confirm b

  unfoldable pub by_code : Binding → (error_code : Option Text) → Step
  unfolding refused_renewal renewed sole filter same_endpoint
  by_code b (some code) = refused_renewal b code
  by_code b none = renewed b (sole (filter (λ (c : Binding). same_endpoint c b) a.renewed_bindings))

  unfoldable pub by_renewal : Binding → Renewal → Step
  unfolding by_code lease_moved after
  by_renewal b r = after (lease_moved b r.lease_until) (by_code b r.error_code)

  unfoldable pub proceed : Binding → Step
  unfolding by_renewal refresh_expired confirm
  proceed b =
      if leb b.lease_until now
      then by_renewal b (refresh_expired a.refresh_answers b)
      else confirm b

  unfoldable pub choose : (capable : List Binding) → Step
  unfolding durable proceed
  choose [] = durable (codes "unsupported_client_version")
  choose (b ∷ []) = proceed b
  choose (b ∷ c ∷ rest) = durable (codes "ambiguous_recipient_sessions")

  unfoldable pub of_reachable : List Binding → Step
  unfolding durable choose filter live_capable
  of_reachable [] = durable (codes "no_live_transport")
  of_reachable (b ∷ bs) = choose (filter (λ (c : Binding). live_capable (adapter c) c) (b ∷ bs))

  unfoldable pub of_permitted : List Binding → Step
  unfolding durable of_reachable filter has_mode
  of_permitted [] = durable (codes "delivery_disabled")
  of_permitted (b ∷ bs) =
      of_reachable (filter (λ (c : Binding). has_mode Mode.live_push c.available_modes) (b ∷ bs))

  unfoldable pub of_bindings : List Binding → Step
  unfolding without_live_transport of_permitted filter permits policy_of
  of_bindings [] = without_live_transport a.native_reason
  of_bindings (b ∷ bs) =
      of_permitted (filter (λ (c : Binding). permits (policy_of (a.policy c)) kind) (b ∷ bs))

  unfoldable pub of_sessions : List Session → Step
  unfolding durable offline end_of of_bindings filter belongs_to
  of_sessions [] = offline (end_of a.last_session)
  of_sessions (target ∷ []) = of_bindings (filter (belongs_to target) a.bindings)
  of_sessions (s ∷ t ∷ rest) = durable (codes "ambiguous_recipient_sessions")

  -- `offerTo`
  unfoldable pub offer_to : Step
  unfolding of_sessions same_state
  offer_to =
      if not (same_state a.receipt ReceiptState.queued)
      then ([], Outcome.already a.receipt)
      else of_sessions a.live_sessions

-- `offer`: the recipients one after another, each with what it is answered.
module _ (version_rule : Option Adapter → Option Text → Option Text)
    (adapter_of : Text → Option Adapter) where
  offer_each : MessageKind → (now : ℕ) → (Text → Answers) → List Text → List (Text × Step)
  unfolding offer_to
  offer_each kind now answers [] = []
  offer_each kind now answers (p ∷ ps) =
      (p, offer_to version_rule adapter_of kind now (answers p)) ∷ offer_each kind now answers ps

  -- A decision that is no head any more is offered to nobody.
  settle_each : (Text → Answers) → List Text → List (Text × Step)
  settle_each answers [] = []
  settle_each answers (p ∷ ps) =
      (p, ([], Outcome.already (answers p).receipt)) ∷ settle_each answers ps

  unfoldable pub offer :
      Message → (is_head : Bool) → (now : ℕ) → (Text → Answers) → List (Text × Step)
  unfolding offer_each settle_each is_decision
  offer m is_head now answers =
      if is_decision m.kind && not is_head
      then settle_each answers m.to_participant_ids
      else offer_each m.kind now answers m.to_participant_ids
