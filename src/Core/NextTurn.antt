-- ===== src/Core/NextTurn.antt =====
-- `nextTurnDelivery` of packages/core/src/next-turn-delivery.mjs: what a recipient is shown with its
-- next turn.
pub mod Telling
mod Examples
use agents_can_communicate.Base.{
  ℕ, Bool, true, false, not, ◌&&◌, ◌||◌, Option, none, some, List, [], ◌∷◌, map, Text, ◌==◌,
  if◌then◌else◌, includes, filter, is_some, is_empty, ltb, eqb,
}
use agents_can_communicate.Base.Table.{Table, lookup, insert, values}
use agents_can_communicate.Base.Sorting.{sort_by}
use agents_can_communicate.Protocol.States.{ReceiptState, same_state}
use agents_can_communicate.Protocol.Messages.{Message, Obligation}
use agents_can_communicate.Core.Records.{Receipt, Offer}
use agents_can_communicate.Core.Decisions.{Status, decision_view, is_current_decision}
use agents_can_communicate.Core.Receipts.{due_for_repeat}

pub record TurnInput : Type 0 where
  pub participant_id : Text
  pub except_session_id : Option Text
  pub repeats : Bool
  pub now : ℕ

-- What is returned; the bodies are messages, the rest are ids.
pub record Delivery : Type 0 where
  pub queued_messages : List Message
  pub live_offered_message_ids : List Text
  pub reminder_message_ids : List Text
  pub room_message_ids : List Text
  pub repeat_messages : List Message
  pub repeat_offers : List (Text × Option Offer)

-- `receiptByMessage`: of two receipts for one message the later one counts.
unfoldable pub receipts_for : Text → Table Receipt → List Receipt → Table Receipt
unfolding insert
receipts_for participant_id t [] = t
receipts_for participant_id t (r ∷ rs) =
    let with = receipts_for participant_id (insert r.message_id r t) rs in
    let without = receipts_for participant_id t rs in
    if r.recipient_participant_id == participant_id then with else without

statuses_of : Option (Table Status) → Table Status
statuses_of none = []
statuses_of (some statuses) = statuses

-- `message.fromSessionId !== input.exceptSessionId`
from_other : Option Text → Message → Bool
from_other none m = true
from_other (some session_id) m = not (m.from_session_id == session_id)

-- The recipient's receipt is in this state.
unfoldable pub receipt_is : ReceiptState → Option Receipt → Bool
unfolding same_state
receipt_is state none = false
receipt_is state (some r) = same_state r.state state

due : Message → (now : ℕ) → Option Receipt → Bool
unfolding due_for_repeat
due m now none = false
due m now (some r) = due_for_repeat m r now

offer_of : Option Receipt → Option Offer
offer_of none = none
offer_of (some r) = r.offer

unfoldable pub asks_something : Obligation → Bool
asks_something Obligation.nothing = false
asks_something _ = true

abbrev pub ids_of : List Message → List Text
ids_of ms = map (λ (m : Message). m.message_id) ms

-- `id_before a b` says that `a.localeCompare(b)` is negative. The messages and the receipts are
-- those of the snapshot.
module _ (id_before : Text → Text → Bool) (input : TurnInput) (messages : List Message)
    (receipts : List Receipt) where
  unfoldable pub receipt_of : Message → Option Receipt
  unfolding receipts_for lookup
  receipt_of m = lookup m.message_id (receipts_for input.participant_id [] receipts)

  unfoldable pub is_eligible : Message → Bool
  unfolding receipt_of is_current_decision decision_view statuses_of from_other lookup
  is_eligible m =
      is_current_decision (lookup m.message_id (statuses_of (decision_view messages)))
      && is_some (receipt_of m)
      && from_other input.except_session_id m

  -- The order of the listing: the oldest first.
  unfoldable pub oldest_first : Message → Message → Bool
  oldest_first a b =
      ltb a.sent_at b.sent_at || (eqb a.sent_at b.sent_at && id_before a.message_id b.message_id)

  unfoldable pub eligible : List Message
  unfolding sort_by filter is_eligible oldest_first
  eligible = sort_by oldest_first (filter is_eligible messages)

  unfoldable pub repeat_messages : List Message
  unfolding eligible filter due receipt_of
  repeat_messages =
      if input.repeats
      then filter (λ (m : Message). due m input.now (receipt_of m)) eligible
      else []

  -- `repeating`
  unfoldable pub repeating : Message → Bool
  unfolding repeat_messages includes
  repeating m = includes m.message_id (ids_of repeat_messages)

  unfoldable pub is_live_offered : Message → Bool
  unfolding receipt_is receipt_of repeating
  is_live_offered m =
      not (is_empty m.to_participant_ids)
      && receipt_is ReceiptState.offered (receipt_of m)
      && not (repeating m)

  unfoldable pub is_reminded : Message → Bool
  unfolding receipt_is receipt_of repeating asks_something
  is_reminded m =
      asks_something m.obligation
      && (receipt_is ReceiptState.offered (receipt_of m)
          || receipt_is ReceiptState.retrieved (receipt_of m))
      && not (repeating m)

  -- `nextTurnDelivery`
  unfoldable pub next_turn_delivery : Delivery
  unfolding eligible repeat_messages is_live_offered is_reminded receipt_is receipt_of filter
      offer_of
  next_turn_delivery =
      if is_empty input.participant_id
      then record {
        queued_messages = [];
        live_offered_message_ids = [];
        reminder_message_ids = [];
        room_message_ids = [];
        repeat_messages = [];
        repeat_offers = [];
      }
      else record {
        queued_messages =
            filter (λ (m : Message). receipt_is ReceiptState.queued (receipt_of m)) eligible;
        live_offered_message_ids = ids_of (filter is_live_offered eligible);
        reminder_message_ids = ids_of (filter is_reminded eligible);
        room_message_ids =
            ids_of (filter (λ (m : Message). is_empty m.to_participant_ids) eligible);
        repeat_messages = repeat_messages;
        repeat_offers =
            map (λ (m : Message). (m.message_id, offer_of (receipt_of m))) repeat_messages;
      }
