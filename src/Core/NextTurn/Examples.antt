-- ===== src/Core/NextTurn/Examples.antt =====
-- A question that is queued, and one that was offered live an hour ago.
use mathlib.Core.List.{Memᴰ}
use agents_can_communicate.Base.{
  ℕ, ◌≡◌, refl, Bool, true, false, none, some, Option, List, [], ◌∷◌, Text, codes, ◌==◌, includes,
  filter,
}
use agents_can_communicate.Base.Table.{lookup, insert}
use agents_can_communicate.Base.Sorting.{sort_by}
use agents_can_communicate.Protocol.States.{ReceiptState, same_state}
use agents_can_communicate.Protocol.Messages.{Message, MessageKind, Obligation, is_decision}
use agents_can_communicate.Core.Records.{Receipt, Offer}
use agents_can_communicate.Core.Decisions.{
  decision_view, decisions_of, by_id, keys, edges, mark_all, is_current_decision,
}
use agents_can_communicate.Core.Receipts.{due_for_repeat, live_and_unrepeated}
use agents_can_communicate.Core.NextTurn.{
  TurnInput, receipts_for, receipt_is, receipt_of, is_eligible, oldest_first, eligible,
  repeat_messages, repeating, is_live_offered, is_reminded, next_turn_delivery, asks_something,
}
use agents_can_communicate.Core.NextTurn.Telling.{Told, next_turn_delivery-Told}

abbrev question : Text → ℕ → Message
question id sent_at = record {
  message_id = id;
  thread_id = id;
  client_message_id = id;
  workspace_id = codes "w";
  from_participant_id = codes "ana";
  from_session_id = codes "s1";
  to_participant_ids = codes "ben" ∷ [];
  kind = MessageKind.question;
  obligation = Obligation.reply;
  subject = codes "Port";
  body = codes "8080?";
  in_reply_to = none;
  artifacts = [];
  handoff_payload = none;
  decision_change = none;
  sent_at = sent_at;
}

abbrev receipt : Text → ReceiptState → Option Offer → Receipt
receipt id state offer = record {
  message_id = id;
  workspace_id = codes "w";
  recipient_participant_id = codes "ben";
  state = state;
  updated_at = 1000;
  offer = offer;
  obligation = none;
}

abbrev messages : List Message
messages = question (codes "m1") 1000 ∷ question (codes "m2") 2000 ∷ []

abbrev receipts : List Receipt
receipts =
    receipt (codes "m1") ReceiptState.offered
      (some (record { transport = codes "kimi-web"; at = 1000; repeated_at = none }))
    ∷ receipt (codes "m2") ReceiptState.queued none
    ∷ []

abbrev input : TurnInput
input = record {
  participant_id = codes "ben";
  except_session_id = some (codes "s2");
  repeats = true;
  now = 3600000;
}

abbrev before : Text → Text → Bool
before a b = false

-- The first is shown again, so it is in no list of ids; the second is shown.
told : next_turn_delivery before input messages receipts ≡ record {
  queued_messages = question (codes "m2") 2000 ∷ [];
  live_offered_message_ids = [];
  reminder_message_ids = [];
  room_message_ids = [];
  repeat_messages = question (codes "m1") 1000 ∷ [];
  repeat_offers =
      (codes "m1", some (record { transport = codes "kimi-web"; at = 1000; repeated_at = none }))
      ∷ [];
}
unfolding next_turn_delivery eligible is_eligible repeat_messages repeating is_live_offered
    is_reminded receipt_is receipt_of receipts_for oldest_first decision_view decisions_of by_id
    keys edges mark_all is_current_decision is_decision due_for_repeat live_and_unrepeated
    same_state sort_by asks_something lookup insert includes filter ◌==◌
told = refl

eligible_first : is_eligible before input messages receipts (question (codes "m1") 1000) ≡ true
unfolding is_eligible receipt_of receipts_for decision_view decisions_of by_id keys edges mark_all
    is_current_decision is_decision lookup insert filter ◌==◌
eligible_first = refl

next_turn_delivery-Told_example : Told before input messages receipts (question (codes "m1") 1000)
next_turn_delivery-Told_example =
    next_turn_delivery-Told before input messages receipts (question (codes "m1") 1000) refl
      (Memᴰ.head refl) eligible_first
