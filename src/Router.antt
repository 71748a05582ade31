-- ===== src/Router.antt =====
-- packages/delivery-router/src/router.mjs: the live offer of a recorded message to a recipient.
-- What the services, the adapter and the clock answer at each point is an argument, any answer at
-- all, since other writers and the client come between; what the router does is a list of actions.
pub mod Reasons
pub mod Refresh
pub mod Leases
pub mod Offering
pub mod Stages
pub mod Consent
pub mod Records
mod Examples
use agents_can_communicate.Base.{
  ℕ, Bool, true, false, not, ◌&&◌, ◌||◌, Option, none, some, List, [], ◌∷◌, ◌++◌, Text, codes, ◌==◌,
  if◌then◌else◌, includes, filter, ltb, leb, is_some,
}
use agents_can_communicate.Protocol.States.{ReceiptState, same_state}
use agents_can_communicate.Protocol.Messages.{Message, MessageKind, is_decision}
use agents_can_communicate.Core.Records.{Session, is_open}
use agents_can_communicate.Core.Bindings.{Binding, Mode, Policy, has_mode}
use agents_can_communicate.Router.Reasons.{offer_errors, native_reason_codes, is_launch_option}
use agents_can_communicate.Router.Refresh.{RefreshAnswers, Renewal, refresh_expired, same_endpoint}

-- ACTIONABLE
unfoldable pub is_actionable : MessageKind → Bool
is_actionable MessageKind.note = false
is_actionable _ = true

unfoldable pub permits : Policy → MessageKind → Bool
unfolding is_actionable
permits Policy.all kind = true
permits Policy.actionable kind = is_actionable kind
permits Policy.off kind = false

-- NAMED_LIVE_TRANSPORTS
unfoldable pub named_live_transports : List Text
named_live_transports = codes "claude-inbox" ∷ codes "codex-app-server" ∷ codes "kimi-web" ∷ []

-- Neither marker can be the endpoint.
unfoldable pub marker : (endpoint : Text) → Text
marker endpoint =
    if endpoint == codes "live-adapter" then codes "native-live" else codes "live-adapter"

unfoldable pub safe_transport : Option Text → (endpoint : Text) → Text
unfolding named_live_transports includes marker
safe_transport none endpoint = marker endpoint
safe_transport (some value) endpoint =
    if includes value named_live_transports && not (value == endpoint)
    then value
    else marker endpoint

pub data OfferKind : Type 0 where
  message wake : OfferKind

-- What the router reads of an adapter: `capabilities.delivery.livePush`, and `nativeDelivery`,
-- where it is declared, with its `offerKind`.
pub record Adapter : Type 0 where
  pub live_push : Bool
  pub native : Option OfferKind

-- What an adapter's `offerMessage` answers.
pub record Response : Type 0 where
  pub accepted : Bool
  pub transport : Option Text
  pub safe_error_code : Option Text
  pub client_version : Option Text
  pub pending_approval : Bool
  pub is_queued : Bool

-- What the services answer for one recipient, in the order in which they are asked.
pub record Answers : Type 0 where
  pub receipt : ReceiptState
  pub live_sessions : List Session
  pub last_session : Option Session
  pub bindings : List Binding
  pub native_reason : Option (Text × Option Text)
  pub policy : Binding → Option Policy
  pub refresh_answers : RefreshAnswers
  pub renewed_bindings : List Binding
  pub current_policy : Binding → Option Policy
  pub current_sessions : List Session
  pub is_head : Bool
  pub later_receipt : ReceiptState
  pub bindings_now : List Binding
  pub clock : ℕ
  pub response : Option Response
  pub is_recorded : Bool

-- What the router does: it moves a lease, asks the adapter, and records.
pub data Action : Type 0 where
  moved_lease : Binding → (lease_until : ℕ) → Action
  asked : Binding → Action
  record_failed : Binding → (transport error_code : Text) → Action
  record_succeeded : Binding → (transport : Text) → Action
  observed : Binding → (reason_code : Option Text) → Action

-- `durable`, with the reason or the end that goes with it, `settled`, and the three ways to arrive.
pub data Outcome : Type 0 where
  waiting : (error_code : Text) → Outcome
  waiting_for : (error_code native_reason : Text) → (launch_option : Option Text) → Outcome
  ended : (error_code end_reason : Text) → Outcome
  already : ReceiptState → Outcome
  busy : (transport : Text) → Outcome
  woken : (transport : Text) → (pending_approval : Bool) → Outcome
  offered : (transport : Text) → Outcome

abbrev pub Step : Type 0
Step = List Action × Outcome

unfoldable pub durable : Text → Step
durable code = ([], Outcome.waiting code)

-- `LIVE_POLICIES.has(policy) ? policy : "off"`; a reading that throws or knows no policy is none.
unfoldable pub policy_of : Option Policy → Policy
policy_of none = Policy.off
policy_of (some policy) = policy

unfoldable pub has_native : Option OfferKind → Bool
has_native none = false
has_native (some kind) = true

unfoldable pub live_capable : Option Adapter → Binding → Bool
unfolding has_native has_mode
live_capable none b = false
live_capable (some adapter) b =
    adapter.live_push && has_native adapter.native && has_mode Mode.live_push b.available_modes

is_wake : Option OfferKind → Bool
is_wake none = false
is_wake (some OfferKind.wake) = true
is_wake (some OfferKind.message) = false

unfoldable pub wakes : Option Adapter → Bool
unfolding is_wake
wakes none = false
wakes (some adapter) = is_wake adapter.native

-- `recordFailure`
unfoldable pub record_failure : Binding → Option Text → (code : Text) → List Action
unfolding safe_transport
record_failure b transport code =
    Action.record_failed b (safe_transport transport b.endpoint) code
    ∷ Action.observed b (some code)
    ∷ []

unfoldable pub fail_with : Binding → Option Text → (code : Text) → Step
unfolding record_failure
fail_with b transport code = (record_failure b transport code, Outcome.waiting code)

-- `SAFE_ERRORS.has(code) ? code : "transport_rejected"`
unfoldable pub safe_error : Option Text → Text
unfolding offer_errors includes
safe_error none = codes "transport_rejected"
safe_error (some code) = if includes code offer_errors then code else codes "transport_rejected"

-- What follows the acceptance of a notice that wakes the client.
unfoldable pub wake_up : Binding → (transport : Text) → Response → Step
wake_up b transport r = (
  Action.observed b (if r.pending_approval then some (codes "inbound_approval_required") else none)
      ∷ [],
  if r.is_queued then Outcome.busy transport else Outcome.woken transport r.pending_approval,
)

-- `recordOfferSucceeded`, and what is recorded where it throws.
unfoldable pub succeed : Binding → (transport : Option Text) → (is_recorded : Bool) → Step
unfolding safe_transport fail_with
succeed b transport true = (
  Action.record_succeeded b (safe_transport transport b.endpoint) ∷ Action.observed b none ∷ [],
  Outcome.offered (safe_transport transport b.endpoint),
)
succeed b transport false =
    fail_with b (some (safe_transport transport b.endpoint)) (codes "transport_error")

unfoldable pub after : List Action → Step → Step
after acts (more, outcome) = (acts ++ more, outcome)

-- `evaluateVersionContract(adapter, { clientVersion }).reasonCode`, of the version that answered.
module _ (version_rule : Option Adapter → Option Text → Option Text) where
  unfoldable pub settle : Option Adapter → Binding → (is_recorded : Bool) → Response → Step
  unfolding fail_with safe_error safe_transport wakes wake_up succeed
  settle adapter b is_recorded r =
      if not r.accepted
      then fail_with b (some (safe_transport r.transport b.endpoint)) (safe_error r.safe_error_code)
      else if is_some (version_rule adapter r.client_version)
      then fail_with b (some (safe_transport r.transport b.endpoint))
          (codes "unsupported_client_version")
      else if wakes adapter
      then wake_up b (safe_transport r.transport b.endpoint) r
      else succeed b r.transport is_recorded
