-- ===== src/Core/Receipts.antt =====
-- packages/core/src/receipts.mjs: what is recorded of the offers of a message to a recipient.
pub mod Forward
pub mod Once
mod Examples
use agents_can_communicate.Base.{
  ℕ, ◌+◌, ◌*◌, ◌≡◌, refl, Bool, true, false, not, ◌&&◌, ◌||◌, Option, none, some, List, [], ◌∷◌,
  arith, Text, codes, ◌==◌, if◌then◌else◌, leb, is_empty, is_none, includes, Result, ok, err, Exit,
  require, present,
}
use agents_can_communicate.Base.Table.{Table, lookup, insert}
use agents_can_communicate.Protocol.Fields.{is_portable_id}
use agents_can_communicate.Protocol.States.{ReceiptState, same_state, advance}
use agents_can_communicate.Protocol.Messages.{Message}
use agents_can_communicate.Core.Records.{Session, Receipt, Offer, Happening, Tx, is_open}
use agents_can_communicate.Core.Transaction.{M, pure, lift, gets, modify, ◌>>=◌, ◌>>◌, append}

-- REPEAT_OFFER_AFTER_MS
abbrev pub repeat_offer_after_ms : ℕ
repeat_offer_after_ms = 15 * 60 * 1000

abbrev pub next_turn : Text
next_turn = codes "next-turn"

-- `publicReceipt`: the obligation is bookkeeping that no reader sees.
unfoldable pub public_receipt : Receipt → Receipt
public_receipt r = record r { obligation = none }

-- `liveAndUnrepeated`
unfoldable pub live_and_unrepeated : Offer → Bool
live_and_unrepeated offer = not (offer.transport == next_turn) && is_none offer.repeated_at

repeatable : Option Offer → ℕ → Bool
unfolding live_and_unrepeated
repeatable none now = false
repeatable (some offer) now =
    live_and_unrepeated offer && leb (offer.at + repeat_offer_after_ms) now

-- `dueForRepeat`, of a message and a receipt that are there.
unfoldable pub due_for_repeat : Message → Receipt → ℕ → Bool
unfolding repeatable same_state
due_for_repeat message receipt now =
    not (is_empty message.to_participant_ids)
    && same_state receipt.state ReceiptState.offered
    && repeatable receipt.offer now

shown_later : Option Offer → Bool
unfolding live_and_unrepeated
shown_later none = true
shown_later (some offer) = live_and_unrepeated offer

-- `awaitsNextTurn`
unfoldable pub awaits_next_turn : Receipt → Bool
unfolding shown_later same_state
awaits_next_turn receipt =
    if same_state receipt.state ReceiptState.queued
    then true
    else if not (same_state receipt.state ReceiptState.offered)
    then false
    else shown_later receipt.offer

-- SAFE_OFFER_ERROR_CODES
unfoldable pub safe_offer_error_codes : List Text
safe_offer_error_codes =
    codes "ambiguous_recipient_sessions"
    ∷ codes "delivery_disabled"
    ∷ codes "recipient_busy"
    ∷ codes "recipient_unavailable"
    ∷ codes "transport_error"
    ∷ codes "transport_rejected"
    ∷ codes "transport_permission_denied"
    ∷ codes "unsupported_client_version"
    ∷ []

pub record OfferInput : Type 0 where
  pub message_id : Text
  pub recipient_participant_id : Text
  pub target_session_id : Text
  pub target_generation : Text
  pub transport : Text
  pub repeat : Bool

-- `validateRecord("receipt", receipt)`, of the fields that are texts.
unfoldable pub is_valid_receipt : Receipt → Bool
is_valid_receipt r =
    is_portable_id r.message_id
    && is_portable_id r.workspace_id
    && is_portable_id r.recipient_participant_id

unfoldable pub put_receipt : Text → Receipt → M (Unit {0})
put_receipt id receipt = do
  lift (require (is_valid_receipt receipt) Exit.invalid)
  modify (λ tx. record tx { receipts = insert id receipt tx.receipts })

-- `requireTarget`: a session of the recipient, of the generation that the offer was made to.
unfoldable pub check_target : Option Session → OfferInput → (must_be_open : Bool) → Result Session
unfolding is_open
check_target none input must_be_open = err Exit.conflict
check_target (some target) input must_be_open =
    if must_be_open && not (is_open target.state)
    then err Exit.conflict
    else if not (target.participant_id == input.recipient_participant_id)
    then err Exit.conflict
    else if target.generation == input.target_generation
    then ok target
    else err Exit.conflict

-- `extensions.offer` with `repeatedAt` set, of an offer that is there.
unfoldable pub repeat_offer : Option Offer → ℕ → Option Offer
repeat_offer none now = none
repeat_offer (some offer) now = some (record offer { repeated_at = some now })

-- `receipt_id` is `receiptId`, a digest of the two ids (`createHash` of node:crypto).
module _ (receipt_id : Text → Text → Text) where
  -- `requireReceipt`
  unfoldable pub require_receipt : (message_id recipient : Text) → M (Message × Receipt)
  require_receipt message_id recipient = do
    found ← gets (λ tx. lookup (receipt_id message_id recipient) tx.receipts)
    receipt ← lift (present found Exit.conflict)
    stored ← gets (λ tx. lookup message_id tx.messages)
    message ← lift (present stored Exit.conflict)
    pure (message, receipt)

  -- `requireOfferableReceipt`: a message to the room goes out with a next turn alone.
  unfoldable pub require_offerable_receipt :
      OfferInput → (allow_room_next_turn : Bool) → M (Message × Receipt)
  unfolding require_receipt
  require_offerable_receipt input allow = do
    (message, receipt) ← require_receipt input.message_id input.recipient_participant_id
    lift (
        require
          (not (
            is_empty message.to_participant_ids
            && (not allow || not (input.transport == next_turn))))
          Exit.conflict)
    pure (message, receipt)

  -- `readReceipt`
  unfoldable pub read_receipt : (message_id recipient : Text) → M Receipt
  unfolding require_receipt public_receipt
  read_receipt message_id recipient = do
    (message, receipt) ← require_receipt message_id recipient
    pure (public_receipt receipt)

  module _ (fresh : Text → ℕ → Text) where
    unfoldable pub succeeded : Receipt → Session → OfferInput → ℕ → M (Unit {0})
    unfolding append
    succeeded receipt target input now = append fresh receipt.workspace_id target.session_id now (
        Happening.offer_succeeded input.message_id input.recipient_participant_id
          input.target_session_id input.target_generation input.transport input.repeat)

    -- The branch of a repeated offer.
    unfoldable pub offer_again : Message → Receipt → Session → OfferInput → ℕ → M Receipt
    unfolding succeeded put_receipt repeat_offer
    offer_again message receipt target input now =
        if not (due_for_repeat message receipt now) then pure receipt else do
          let repeated = record receipt { offer = repeat_offer receipt.offer now }
          put_receipt (receipt_id input.message_id input.recipient_participant_id) repeated
          succeeded receipt target input now
          pure repeated

    -- The branch of a first offer: a stronger state stays as it is.
    unfoldable pub offer_first : Receipt → Session → OfferInput → ℕ → M Receipt
    unfolding succeeded put_receipt same_state
    offer_first receipt target input now =
        if not (same_state receipt.state ReceiptState.queued) then pure receipt else do
          state ← lift (advance receipt.state ReceiptState.offered)
          let offered = record receipt {
            state = state;
            updated_at = now;
            offer = some (record { transport = input.transport; at = now; repeated_at = none });
          }
          put_receipt (receipt_id input.message_id input.recipient_participant_id) offered
          succeeded receipt target input now
          pure offered

    -- `recordOfferSucceeded`
    unfoldable pub record_offer_succeeded : OfferInput → ℕ → M Receipt
    record_offer_succeeded input now = do
      lift (require (not (input.repeat && not (input.transport == next_turn))) Exit.invalid)
      (message, receipt) ← require_offerable_receipt input true
      session ← gets (λ tx. lookup input.target_session_id tx.sessions)
      target ← lift (check_target session input true)
      done ←
          (if input.repeat
            then offer_again message receipt target input now
            else offer_first receipt target input now)
      pure (public_receipt done)

    -- `recordOfferFailed`
    unfoldable pub record_offer_failed : OfferInput → (safe_error_code : Text) → ℕ → M (Unit {0})
    unfolding append includes
    record_offer_failed input code now = do
      lift (require (includes code safe_offer_error_codes) Exit.invalid)
      (message, receipt) ← require_offerable_receipt input false
      session ← gets (λ tx. lookup input.target_session_id tx.sessions)
      target ← lift (check_target session input false)
      append fresh receipt.workspace_id target.session_id now (
          Happening.offer_failed input.message_id input.recipient_participant_id target.session_id
            target.generation input.transport code)
