-- ===== src/Core/Receipts/Once.antt =====
-- An offer is recorded once, and a live offer is shown again once.
use agents_can_communicate.Base.{
  ℕ, ◌≡◌, refl, Bool, true, false, not, ◌&&◌, some, arith, Text, ◌==◌, if◌then◌else◌, Bool-cases,
  inl, inr, ok, eq_refl, is_empty, required, ◌||◌,
}
use agents_can_communicate.Base.Table.{lookup, lookup-insert}
use agents_can_communicate.Protocol.States.{ReceiptState, same_state, advance-eq_next}
use agents_can_communicate.Protocol.Messages.{Message}
use agents_can_communicate.Core.Records.{Session, Receipt, Tx}
use agents_can_communicate.Core.Transaction.{pure, ◌>>=◌, ◌>>◌, append}
use agents_can_communicate.Core.Transaction.Posts.{
  Post, Post-bind, Post-pure, Post-weaken, Post-bind-lift, Post-bind-gets,
}
use agents_can_communicate.Core.Receipts.Forward.{require_receipt-IsStored}
use agents_can_communicate.Core.Receipts.{
  put_receipt, succeeded, OfferInput, due_for_repeat, repeat_offer, offer_first, offer_again,
  awaits_next_turn, check_target, next_turn, public_receipt, record_offer_succeeded,
  require_offerable_receipt, require_receipt,
}

-- Once a live offer has been shown again, it is never due again, at any time.
pub repeated_once :
    (message : Message) (receipt : Receipt) (now later : ℕ)
    → due_for_repeat message (record receipt { offer = repeat_offer receipt.offer now }) later
      ≡ false
unfolding due_for_repeat repeat_offer
repeated_once message receipt now later = ground arith

-- A receipt that is due for a repeat waits for the next turn, so the turn that shows it is not
-- reported as having nothing to show.
pub due-awaits :
    (message : Message) (receipt : Receipt) (now : ℕ)
    → due_for_repeat message receipt now ≡ true
    → awaits_next_turn receipt ≡ true
unfolding due_for_repeat awaits_next_turn
due-awaits message receipt now h = ground arith

module _ (receipt_id : Text → Text → Text) (fresh : Text → ℕ → Text) (input : OfferInput) where
  abbrev key : Text
  key = receipt_id input.message_id input.recipient_participant_id

  -- A state in which an offer that is recorded once more finds nothing to do.
  record IsSettled (message : Message) (target : Session) (r : Receipt) (s : Tx) : Type 0 where
    first : input.repeat ≡ false
    message_there : lookup input.message_id s.messages ≡ some message
    receipt_there : lookup key s.receipts ≡ some r
    offerable :
        (not
          (is_empty message.to_participant_ids && (not true || not (input.transport == next_turn))))
        ≡ true
    target_there : check_target (lookup input.target_session_id s.sessions) input true ≡ ok target
    settled : same_state r.state ReceiptState.queued ≡ false

  settled_again :
      (message : Message) (target : Session) (r : Receipt) (s : Tx) (later : ℕ)
      → IsSettled message target r s
      → record_offer_succeeded receipt_id fresh input later s ≡ ok (public_receipt r, s)
  unfolding record_offer_succeeded require_offerable_receipt require_receipt offer_first ◌>>=◌
  settled_again message target r s later v =
      ground
        (arith, v.first, v.message_there, v.receipt_there, v.offerable, v.target_there, v.settled)

  -- The write of an offered receipt, and its event.
  offered_write :
      (old new : Receipt) (target : Session) (now : ℕ) (tx : Tx)
      → Post
          (do put_receipt key new; succeeded receipt_id fresh old target input now; pure new)
          tx
          (λ a s.
            (a ≡ new)
            × (s.messages ≡ tx.messages)
            × (s.sessions ≡ tx.sessions)
            × (lookup key s.receipts ≡ some new))
  unfolding put_receipt succeeded append ◌>>=◌
  offered_write old new target now tx = record {
    holds = λ a s h. (
      ground arith,
      ground arith,
      ground arith,
      ground (arith, lookup-insert key key new tx.receipts, eq_refl key),
    );
  }

  offer_first-IsSettled :
      (message : Message) (receipt : Receipt) (target : Session) (now : ℕ) (tx : Tx)
      → input.repeat ≡ false
      → lookup input.message_id tx.messages ≡ some message
      → lookup key tx.receipts ≡ some receipt
      → not
          (is_empty message.to_participant_ids && (not true || not (input.transport == next_turn)))
        ≡ true
      → check_target (lookup input.target_session_id tx.sessions) input true ≡ ok target
      → Post (offer_first receipt_id fresh receipt target input now) tx (IsSettled message target)
  unfolding offer_first
  offer_first-IsSettled message receipt target now tx first m r o t =
      elim (Bool-cases (same_state receipt.state ReceiptState.queued)) [
        | inl e ↦ rw e (
            Post-bind-lift _ _ tx λ state a.
              Post-weaken _ tx (offered_write receipt _ target now tx)
                λ new s (same, ms, ss, found). record {
                  first = first;
                  message_there = rw ms m;
                  receipt_there = rw same found;
                  offerable = o;
                  target_there = rw ss t;
                  settled = rw same (rw (advance-eq_next _ _ _ a) (unfold same_state in refl));
                })
        | inr e ↦ rw e (
            Post-pure _ tx (record {
              first = first;
              message_there = m;
              receipt_there = r;
              offerable = o;
              target_there = t;
              settled = e;
            }))
      ]

  offer_either-IsSettled :
      (repeat : Bool) (message : Message) (receipt : Receipt) (target : Session) (now : ℕ) (tx : Tx)
      → repeat ≡ false
      → Post (offer_first receipt_id fresh receipt target input now) tx (IsSettled message target)
      → Post
          (if repeat
            then offer_again receipt_id fresh message receipt target input now
            else offer_first receipt_id fresh receipt target input now)
          tx
          (IsSettled message target)
  offer_either-IsSettled true m r target now tx first p = cc
  offer_either-IsSettled false m r target now tx first p = p

  offerable-IsStored :
      (tx : Tx)
      → Post (require_offerable_receipt receipt_id input true) tx (λ found s.
        (s ≡ tx)
        × (lookup input.message_id tx.messages ≡ some found.0)
        × (lookup key tx.receipts ≡ some found.1)
        × (not (
              is_empty found.0.to_participant_ids
              && (not true || not (input.transport == next_turn)))
            ≡ true))
  unfolding require_offerable_receipt
  offerable-IsStored tx =
      Post-bind _ _ tx (require_receipt-IsStored receipt_id _ _ tx)
        λ (m, r) s (same, stored, found).
          Post-bind-lift _ _ s λ u o. Post-pure _ s (same, stored, found, required _ _ u o)

  recorded_again :
      (now later : ℕ) (tx : Tx)
      → input.repeat ≡ false
      → Post
          (record_offer_succeeded receipt_id fresh input now)
          tx
          (λ r s. record_offer_succeeded receipt_id fresh input later s ≡ ok (r, s))
  unfolding record_offer_succeeded
  recorded_again now later tx first = Post-bind-lift _ _ tx λ _ _.
      Post-bind _ _ tx (offerable-IsStored tx) λ (m, r) s (same, stored, found, o).
        Post-bind-gets _ _ s (
          Post-bind-lift _ _ s λ target t.
            Post-bind _ _ s
              (offer_either-IsSettled input.repeat m r target now s first
                (offer_first-IsSettled m r target now s first (rw same stored) (rw same found) o t))
              λ done u v. Post-pure _ u (settled_again m target done u later v))

  -- Recording the same first offer once more, at any later time, changes nothing and returns the
  -- same receipt: there is no second event, and no stronger state is lost.
  pub record_offer_succeeded_idem :
      (now later : ℕ) (tx tx' : Tx) (r : Receipt)
      → input.repeat ≡ false
      → record_offer_succeeded receipt_id fresh input now tx ≡ ok (r, tx')
      → record_offer_succeeded receipt_id fresh input later tx' ≡ ok (r, tx')
  record_offer_succeeded_idem now later tx tx' r first h =
      (recorded_again now later tx first).holds r tx' h
