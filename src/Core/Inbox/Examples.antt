-- ===== src/Core/Inbox/Examples.antt =====
-- Ana asks Ben a question, by the name of his client; Ben reads it and answers. The theorems on
-- recording and on receipts, at these inputs.
mod Finishing
use agents_can_communicate.Base.{
  arith, eq_iff, ◌≢◌, ℕ, ◌+◌, ◌≡◌, refl, true, false, none, some, [], ◌∷◌, ◌++◌, Text, codes,
  Result, ok, err, ◌==◌, every, map, includes, filter, find, traverse, distinct,
}
use agents_can_communicate.Base.Table.{lookup, insert, remove, values}
use agents_can_communicate.Base.Order.{sort, unique, insert_sorted, text_leb}
use agents_can_communicate.Protocol.Fields.{
  is_portable_id, matches_portable, ends_with_dot, windows_device, is_text, is_resource_uri,
}
use agents_can_communicate.Protocol.States.{ReceiptState, advance, same_state}
use agents_can_communicate.Protocol.Messages.{
  HandoffStatus, Message, MessageKind, Obligation, assert_message_semantics, is_decision,
  asks_reply,
}
use agents_can_communicate.Protocol.Messages.Records.{
  valid_message, is_artifact, is_handoff_payload,
}
use agents_can_communicate.Core.Records.{
  Session, SessionState, Enforcement, Lifecycle, Participant, ParticipantKind, Receipt, Tx, is_open,
  Claim, ClaimMode,
}
use agents_can_communicate.Core.Transaction.{◌>>=◌, for_each, append}
use agents_can_communicate.Core.Receipts.{put_receipt, is_valid_receipt, public_receipt}
use agents_can_communicate.Core.Receipts.Forward.{MovesForward}
use agents_can_communicate.Core.Conversations.{
  MessageInput, known_participants, open_participants, pick_peer, resolve_addressee,
  resolve_addressees, addressed_recipients, thread_for,
}
use agents_can_communicate.Core.Conversations.Content.{same_content}
use agents_can_communicate.Core.Conversations.Changes.{prepare_decision_change}
use agents_can_communicate.Core.Conversations.Recording.{
  Recorded, record_message, record_unless, put_message, queue_receipt, queued_receipt, message_of,
  has_client_key, find_message_retry, assert_current_session,
}
use agents_can_communicate.Core.Conversations.Delivery.{Delivered, record_message-Delivered}
use agents_can_communicate.Core.Conversations.Retries.{record_message_idem}
use agents_can_communicate.Core.FinishRetry.{project_released_claim}
use agents_can_communicate.Core.Claims.Removal.{LessIds, ids_of}
use agents_can_communicate.Core.Conversations.Finish.{
  FinishInput, Finished, finish_session, finish_in_transaction, after_transaction, finish_unless,
  finish_message, handoff_body, claims_of, check_generation, closed_session, give_back,
  close_session,
}
use agents_can_communicate.Core.Conversations.Finish.Ends.{IsClosed, IsKeyed, finish_session_ends}
use agents_can_communicate.Core.Inbox.{
  ReplyInput, reply_to_message, reply_message, reply_subject, read_message, retrieve, recoverable,
  advance_owned, move_receipt, moved_receipt, with_obligation, require_owned_receipt, require_open,
  session_of, acknowledge_message,
}
use agents_can_communicate.Core.Inbox.Forward.{Commit, Commits, receipts_move_forward}

abbrev fresh : Text → ℕ → Text
fresh kind n = kind ++ (b'0' + n) ∷ []

-- In place of the digest: any function that tells the pairs apart will do here.
abbrev receipt_id : Text → Text → Text
receipt_id message participant = message ++ codes "." ++ participant

abbrev session : Text → Text → Text → Session
session id participant client = record {
  session_id = id;
  participant_id = participant;
  workspace_id = codes "w";
  generation = codes "g";
  harness = client;
  state = SessionState.opened;
  parent_session_id = none;
  checkout_root = none;
  branch = none;
  pid = none;
  enforcement = Enforcement.guarded;
  lifecycle = Lifecycle.managed;
  heartbeat_cadence_ms = 60000;
  started_at = 0;
  heartbeat_at = 0;
  noticed_left_messages = none;
  end_reason = none;
}

abbrev ana : Session
ana = session (codes "s1") (codes "ana") (codes "claude_code")

abbrev ben : Session
ben = session (codes "s2") (codes "ben") (codes "codex")

abbrev participant : Text → Participant
participant id = record {
  participant_id = id;
  workspace_id = codes "w";
  display_name = id;
  kind = ParticipantKind.agent;
  created_at = 0;
}

abbrev empty : Tx
empty = record {
  participants =
      (codes "ana", participant (codes "ana")) ∷ (codes "ben", participant (codes "ben")) ∷ [];
  sessions = (codes "s1", ana) ∷ (codes "s2", ben) ∷ [];
  claims = [];
  messages = [];
  receipts = [];
  intents = [];
  events = [];
  next_id = 0;
}

abbrev question : MessageInput
question = record {
  client_message_id = codes "k1";
  to_participant_ids = codes "codex" ∷ [];
  kind = MessageKind.question;
  obligation = Obligation.reply;
  subject = codes "Port";
  body = codes "Which?";
  in_reply_to = none;
  artifacts = [];
  handoff_payload = none;
  supersedes = none;
  withdraws = none;
  decision_change = none;
}

abbrev answer : ReplyInput
answer = record {
  message_id = codes "m1";
  client_message_id = codes "k2";
  subject = none;
  body = codes "8080";
  artifacts = [];
}

abbrev asked : Result (Recorded × Tx)
asked = record_message receipt_id fresh ana question 1000 (codes "m1") empty

abbrev recorded_or : Result (Recorded × Tx) → Recorded → Recorded × Tx
recorded_or (ok r) d = r
recorded_or (err e) d = (d, empty)

abbrev nothing_recorded : Recorded
nothing_recorded = record {
  message = message_of ana question 0 [] [];
  recipients = [];
  created = false;
}

abbrev sent : Recorded × Tx
sent = recorded_or asked nothing_recorded

abbrev pair_or : Result ((Message × Receipt) × Tx) → (Message × Receipt) × Tx
pair_or (ok r) = r
pair_or (err e) = ((nothing_recorded.message, queued_receipt nothing_recorded.message 0 []), empty)

abbrev seen : (Message × Receipt) × Tx
seen = pair_or (
    read_message receipt_id fresh (some ben) none (codes "s2") (codes "g") (codes "m1") 2000 sent.1)

abbrev answered : (Message × Receipt) × Tx
answered =
    pair_or
      (reply_to_message receipt_id fresh (some ben) (codes "g") answer (codes "m2") 3000 seen.1)

-- To open this is to open all that recording and reading compute with.
runs : Tx → Tx
unfolding record_message record_unless put_message queue_receipt queued_receipt message_of
    has_client_key find_message_retry assert_current_session known_participants open_participants
    pick_peer resolve_addressee resolve_addressees addressed_recipients thread_for same_content
    prepare_decision_change valid_message is_artifact is_handoff_payload assert_message_semantics
    is_decision asks_reply is_open put_receipt is_valid_receipt public_receipt advance same_state
    is_portable_id matches_portable ends_with_dot windows_device is_text is_resource_uri lookup
    insert values sort unique insert_sorted text_leb ◌>>=◌ for_each append ◌==◌ every includes
    filter find traverse distinct reply_to_message reply_message reply_subject read_message retrieve
    recoverable advance_owned move_receipt moved_receipt with_obligation require_owned_receipt
    require_open session_of acknowledge_message
runs tx = tx

sent_commit :
    record_message receipt_id fresh ana question 1000 (codes "m1") empty ≡ ok (sent.0, sent.1)
unfolding runs
sent_commit = refl

-- The name of Ben's client stands for Ben.
sent_to_ben : sent.0.recipients ≡ codes "ben" ∷ []
unfolding runs
sent_to_ben = refl

record_message_idem_example :
    record_message receipt_id fresh ana question 9000 (codes "m9") sent.1
    ≡ ok (record { message = sent.0.message; recipients = []; created = false }, sent.1)
record_message_idem_example =
    record_message_idem receipt_id fresh ana question 1000 9000 (codes "m1") (codes "m9") empty
      sent.1 sent.0 (refl, refl, refl) sent_commit

record_message-Delivered_example : Delivered receipt_id fresh ana 1000 empty sent.0 sent.1
record_message-Delivered_example =
    record_message-Delivered receipt_id fresh ana question 1000 (codes "m1") empty sent.1 sent.0
      sent_commit

seen_commit :
    read_message receipt_id fresh (some ben) none (codes "s2") (codes "g") (codes "m1") 2000 sent.1
    ≡ ok (seen.0, seen.1)
unfolding runs
seen_commit = refl

answered_commit :
    reply_to_message receipt_id fresh (some ben) (codes "g") answer (codes "m2") 3000 seen.1
    ≡ ok (answered.0, answered.1)
unfolding runs
answered_commit = refl

answered_state : same_state answered.0.1.state ReceiptState.acknowledged ≡ true
unfolding runs
answered_state = refl

history-Commits : Commits receipt_id fresh sent.1 answered.1
history-Commits =
    Commits.next
      (Commits.next Commits.start
        (Commit.read (some ben) none (codes "s2") (codes "g") (codes "m1") 2000 seen.0 seen_commit))
      (Commit.replied (some ben) (codes "g") answer (codes "m2") 3000 answered.0 answered_commit)

receipts_move_forward_example : MovesForward sent.1.receipts answered.1.receipts
receipts_move_forward_example =
    receipts_move_forward receipt_id fresh sent.1 answered.1 history-Commits
