-- ===== src/Core/Receipts/Examples.antt =====
-- A question offered to a session, recorded twice, and the theorems at these inputs.
use agents_can_communicate.Base.{
  ℕ, ◌+◌, ◌≡◌, refl, true, false, none, some, [], ◌∷◌, ◌++◌, Text, codes, Result, ok, err, ◌==◌,
  every, includes,
}
use agents_can_communicate.Base.Table.{lookup, insert, values}
use agents_can_communicate.Protocol.Fields.{
  is_portable_id, matches_portable, ends_with_dot, windows_device,
}
use agents_can_communicate.Protocol.States.{ReceiptState, advance, same_state}
use agents_can_communicate.Protocol.Messages.{Message, MessageKind, Obligation}
use agents_can_communicate.Core.Records.{Session, SessionState, Enforcement, Lifecycle, Receipt, Tx}
use agents_can_communicate.Core.Transaction.{◌>>=◌}
use agents_can_communicate.Core.Receipts.{
  OfferInput, record_offer_succeeded, record_offer_failed, require_offerable_receipt,
  require_receipt, check_target, offer_first, offer_again, put_receipt, is_valid_receipt,
  public_receipt, due_for_repeat,
}
use agents_can_communicate.Core.Receipts.Once.{record_offer_succeeded_idem}

abbrev fresh : Text → ℕ → Text
fresh kind n = kind ++ (b'0' + n) ∷ []

-- In place of the digest: any function that tells the pairs apart will do here.
abbrev receipt_id : Text → Text → Text
receipt_id message participant = message ++ codes "." ++ participant

abbrev ben : Session
ben = record {
  session_id = codes "s2";
  participant_id = codes "ben";
  workspace_id = codes "w";
  generation = codes "g";
  harness = codes "codex";
  state = SessionState.opened;
  parent_session_id = none;
  checkout_root = none;
  branch = none;
  pid = none;
  enforcement = Enforcement.guarded;
  lifecycle = Lifecycle.managed;
  heartbeat_cadence_ms = 60000;
  started_at = 0;
  heartbeat_at = 0;
  noticed_left_messages = none;
  end_reason = none;
}

abbrev question : Message
question = record {
  message_id = codes "m1";
  thread_id = codes "m1";
  client_message_id = codes "k1";
  workspace_id = codes "w";
  from_participant_id = codes "ana";
  from_session_id = codes "s1";
  to_participant_ids = codes "ben" ∷ [];
  kind = MessageKind.question;
  obligation = Obligation.reply;
  subject = codes "Which port?";
  body = codes "Which port does the server use?";
  in_reply_to = none;
  artifacts = [];
  handoff_payload = none;
  decision_change = none;
  sent_at = 1000;
}

abbrev waiting : Receipt
waiting = record {
  message_id = codes "m1";
  workspace_id = codes "w";
  recipient_participant_id = codes "ben";
  state = ReceiptState.queued;
  updated_at = 1000;
  offer = none;
  obligation = some Obligation.reply;
}

abbrev inbox : Tx
inbox = record {
  participants = [];
  sessions = (codes "s2", ben) ∷ [];
  claims = [];
  messages = (codes "m1", question) ∷ [];
  receipts = (receipt_id (codes "m1") (codes "ben"), waiting) ∷ [];
  intents = [];
  events = [];
  next_id = 0;
}

abbrev live_offer : OfferInput
live_offer = record {
  message_id = codes "m1";
  recipient_participant_id = codes "ben";
  target_session_id = codes "s2";
  target_generation = codes "g";
  transport = codes "codex-app-server";
  repeat = false;
}

abbrev returned : {A : Type 0} → Result (A × Tx) → A × Tx → A × Tx
returned (ok r) d = r
returned (err e) d = d

abbrev offered : Receipt × Tx
offered = returned (record_offer_succeeded receipt_id fresh live_offer 2000 inbox) (waiting, inbox)

-- To open this is to open all that recording an offer computes with.
runs : Tx → Tx
unfolding record_offer_succeeded record_offer_failed require_offerable_receipt require_receipt
    check_target offer_first offer_again put_receipt is_valid_receipt public_receipt due_for_repeat
    advance same_state is_portable_id matches_portable ends_with_dot windows_device lookup insert
    values ◌>>=◌ ◌==◌ every includes
runs tx = tx

offered_commit :
    record_offer_succeeded receipt_id fresh live_offer 2000 inbox ≡ ok (offered.0, offered.1)
unfolding runs
offered_commit = refl

offered_state : same_state offered.0.state ReceiptState.offered ≡ true
unfolding runs
offered_state = refl

record_offer_succeeded_idem_example :
    record_offer_succeeded receipt_id fresh live_offer 9000 offered.1 ≡ ok (offered.0, offered.1)
record_offer_succeeded_idem_example =
    record_offer_succeeded_idem receipt_id fresh live_offer 2000 9000 inbox offered.1 offered.0 refl
      offered_commit
