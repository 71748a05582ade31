-- ===== src/Router/Examples.antt =====
-- A question to Ben, whose client replies, and a lease that is moved on first.
use agents_can_communicate.Base.{
  ℕ, ◌≡◌, refl, true, false, none, some, Option, [], ◌∷◌, Text, codes, ◌==◌, includes, filter,
}
use agents_can_communicate.Protocol.States.{ReceiptState, same_state}
use agents_can_communicate.Protocol.Messages.{MessageKind, is_decision}
use agents_can_communicate.Core.Records.{Session, SessionState, Enforcement, Lifecycle}
use agents_can_communicate.Core.Bindings.{Binding, Mode, Policy, has_mode}
use agents_can_communicate.Router.Refresh.{
  RefreshAnswers, refresh_expired, by_handshake, requested_lease, renew, same_endpoint,
  same_binding, earlier,
}
use agents_can_communicate.Router.Leases.{IsBounded, refresh_expired-IsBounded}
use agents_can_communicate.Router.Consent.{IsFine, offer_to_consent}
use agents_can_communicate.Router.Records.{IsTold, offer_to-IsTold}
use agents_can_communicate.Router.{
  Action, Adapter, Answers, OfferKind, Outcome, settle, succeed, after, permits, policy_of,
  is_actionable, live_capable, has_native, wakes, safe_transport, named_live_transports,
}
use agents_can_communicate.Router.Offering.{
  offer_to, of_sessions, of_bindings, of_permitted, of_reachable, choose, proceed, by_renewal,
  by_code, renewed, confirm, of_current_sessions, hand_off, ask, hear, sole, belongs_to, still_live,
  lease_moved,
}

abbrev ben : Session
ben = record {
  session_id = codes "s2";
  participant_id = codes "ben";
  workspace_id = codes "w";
  generation = codes "g";
  harness = codes "kimi";
  state = SessionState.opened;
  parent_session_id = none;
  checkout_root = none;
  branch = none;
  pid = none;
  enforcement = Enforcement.guarded;
  lifecycle = Lifecycle.managed;
  heartbeat_cadence_ms = 60000;
  started_at = 0;
  heartbeat_at = 1000;
  noticed_left_messages = none;
  end_reason = none;
}

abbrev endpoint : ℕ → Binding
endpoint lease = record {
  session_id = codes "s2";
  generation = codes "g";
  adapter_id = codes "kimi";
  client_version = codes "1.0";
  available_modes = Mode.live_push ∷ [];
  live_policy = Policy.actionable;
  endpoint = codes "e1";
  lease_until = lease;
  retired_at = none;
}

abbrev refresh_answers : RefreshAnswers
refresh_answers = record {
  is_callable = true;
  clock = 2000;
  validated =
      some (record {
        is_ok = true;
        reason_code = [];
        endpoint = codes "e1";
        lease_until = some 900000;
      });
  is_stored = true;
  current = some (endpoint 122000);
}

abbrev replies : Answers
replies = record {
  receipt = ReceiptState.queued;
  live_sessions = ben ∷ [];
  last_session = none;
  bindings = endpoint 1500 ∷ [];
  native_reason = none;
  policy = λ b. some Policy.actionable;
  refresh_answers = refresh_answers;
  renewed_bindings = endpoint 122000 ∷ [];
  current_policy = λ b. some Policy.all;
  current_sessions = ben ∷ [];
  is_head = true;
  later_receipt = ReceiptState.queued;
  bindings_now = endpoint 122000 ∷ [];
  clock = 2100;
  response = some (record {
    accepted = true;
    transport = some (codes "kimi-web");
    safe_error_code = none;
    client_version = some (codes "1.0");
    pending_approval = false;
    is_queued = false;
  });
  is_recorded = true;
}

abbrev adapter_of : Text → Option Adapter
adapter_of id = some (record { live_push = true; native = some OfferKind.message })

abbrev any_version : Option Adapter → Option Text → Option Text
any_version adapter version = none

abbrev asked_with : Binding
asked_with = record (endpoint 122000) { live_policy = Policy.all }

-- The lease is moved to 120 seconds from then, and the policy that was read last goes along.
told : offer_to any_version adapter_of MessageKind.question 2000 replies ≡ (
  Action.moved_lease (endpoint 1500) 122000
      ∷ Action.asked asked_with
      ∷ Action.record_succeeded (endpoint 122000) (codes "kimi-web")
      ∷ Action.observed (endpoint 122000) none
      ∷ [],
  Outcome.offered (codes "kimi-web"),
)
unfolding offer_to of_sessions of_bindings of_permitted of_reachable choose proceed by_renewal
    by_code renewed confirm of_current_sessions hand_off ask hear settle succeed after sole permits
    policy_of is_actionable live_capable has_native belongs_to still_live lease_moved wakes
    safe_transport named_live_transports refresh_expired by_handshake requested_lease renew
    same_endpoint same_binding earlier has_mode includes filter ◌==◌ same_state is_decision
told = refl

offer_to_consent_example :
    IsFine adapter_of MessageKind.question replies
      (offer_to any_version adapter_of MessageKind.question 2000 replies)
offer_to_consent_example = offer_to_consent any_version adapter_of MessageKind.question 2000 replies

offer_to-IsTold_example : IsTold (offer_to any_version adapter_of MessageKind.question 2000 replies)
offer_to-IsTold_example = offer_to-IsTold any_version adapter_of MessageKind.question 2000 replies

refresh_expired-IsBounded_example :
    IsBounded refresh_answers (endpoint 1500) (refresh_expired refresh_answers (endpoint 1500))
refresh_expired-IsBounded_example = refresh_expired-IsBounded refresh_answers (endpoint 1500)
