-- ===== src/Core/Receipts/Forward.antt =====
-- Receipts only move forward, whatever is recorded of offers.
use agents_can_communicate.Base.{
  ℕ, ◌≤◌, ◌≡◌, refl, ap, ◌∙◌, Bool, true, false, some, arith, Text, ◌==◌, eq_iff, if◌then◌else◌,
  Bool-cases, inl, inr, found_in,
}
use agents_can_communicate.Base.Table.{Table, lookup, insert, lookup-insert}
use agents_can_communicate.Protocol.States.{ReceiptState, position, same_state, advance-le}
use agents_can_communicate.Protocol.Messages.{Message}
use agents_can_communicate.Core.Records.{Session, Receipt, Happening, Tx}
use agents_can_communicate.Core.Transaction.{pure, ◌>>◌, append}
use agents_can_communicate.Core.Transaction.Posts.{
  Post, Post-bind, Post-pure, Post-weaken, Post-bind-lift, Post-bind-gets, Post-modify,
}
use agents_can_communicate.Core.Receipts.{
  OfferInput, put_receipt, require_receipt, require_offerable_receipt, offer_first, offer_again,
  succeeded, record_offer_succeeded, record_offer_failed, due_for_repeat,
}

-- Every receipt is still there, in the state that it had or a later one.
abbrev pub MovesForward : Table Receipt → Table Receipt → Type 0
MovesForward before after =
    (k : Text) (r : Receipt)
    → lookup k before ≡ some r
    → (r' : Receipt) × (lookup k after ≡ some r') × (position r.state ≤ position r'.state)

pub MovesForward-refl : (t : Table Receipt) → MovesForward t t
MovesForward-refl t k r h = (r, h, omega arith)

pub MovesForward-trans :
    (t u v : Table Receipt) → MovesForward t u → MovesForward u v → MovesForward t v
MovesForward-trans t u v f g k r h =
    let (r', h', le) = f k r h in let (r'', h'', le') = g k r' h' in (r'', h'', omega arith)

pub MovesForward-insert :
    (t : Table Receipt) (k : Text) (old new : Receipt)
    → lookup k t ≡ some old
    → position old.state ≤ position new.state
    → MovesForward t (insert k new t)
MovesForward-insert t k old new found le j r h = elim (Bool-cases (k == j)) [
  | inl e ↦ (new, lookup-insert k j new t ∙ rw e, ground (arith, eq_iff k j))
  | inr e ↦ (r, lookup-insert k j new t ∙ rw e h, omega arith)
]

module _ (fresh : Text → ℕ → Text) where
  pub append-receipts :
      (workspace actor : Text) (now : ℕ) (h : Happening) (tx : Tx)
      → Post (append fresh workspace actor now h) tx (λ _ s. s.receipts ≡ tx.receipts)
  unfolding append
  append-receipts workspace actor now h tx = record { holds = λ u s e. ground arith }

pub put_receipt-receipts :
    (id : Text) (r : Receipt) (tx : Tx)
    → Post (put_receipt id r) tx (λ _ s. s.receipts ≡ insert id r tx.receipts)
unfolding put_receipt
put_receipt-receipts id r tx = Post-bind-lift _ _ tx λ _ _. Post-modify _ tx refl

module _ (receipt_id : Text → Text → Text) where
  -- What `requireReceipt` returns is stored, and it writes nothing.
  abbrev pub IsStored : Text → Text → Tx → Message × Receipt → Tx → Type 0
  IsStored message_id recipient tx found s =
      (s ≡ tx)
      × (lookup message_id tx.messages ≡ some found.0)
      × (lookup (receipt_id message_id recipient) tx.receipts ≡ some found.1)

  pub require_receipt-IsStored :
      (message_id recipient : Text) (tx : Tx)
      → Post (require_receipt receipt_id message_id recipient) tx (IsStored message_id recipient tx)
  unfolding require_receipt
  require_receipt-IsStored m p tx = Post-bind-gets _ _ tx (
      Post-bind-lift _ _ tx λ receipt f. Post-bind-gets _ _ tx (
        Post-bind-lift _ _ tx
          λ message g. Post-pure _ tx (refl, found_in _ _ _ g, found_in _ _ _ f)))

  pub require_offerable-IsStored :
      (input : OfferInput) (allow : Bool) (tx : Tx)
      → Post
          (require_offerable_receipt receipt_id input allow)
          tx
          (IsStored input.message_id input.recipient_participant_id tx)
  unfolding require_offerable_receipt
  require_offerable-IsStored input allow tx =
      Post-bind _ _ tx (require_receipt-IsStored _ _ tx)
        λ (m, r) s stored. Post-bind-lift _ _ s λ _ _. Post-pure _ s stored

  module _ (fresh : Text → ℕ → Text) (input : OfferInput) (now : ℕ) where
    abbrev key : Text
    key = receipt_id input.message_id input.recipient_participant_id

    abbrev Forward {ℓ} : {A : Type ℓ} → Tx → A → Tx → Type 0
    Forward tx _ s = MovesForward tx.receipts s.receipts

    -- A write of a later state, and then its event.
    write-Forward :
        (old new : Receipt) (target : Session) (tx : Tx)
        → lookup key tx.receipts ≡ some old
        → position old.state ≤ position new.state
        → Post
            (do put_receipt key new; succeeded receipt_id fresh old target input now; pure new)
            tx
            (Forward tx)
    unfolding succeeded
    write-Forward old new target tx found le =
        Post-bind _ _ tx (put_receipt-receipts key new tx) λ _ s e.
          Post-bind _ _ s (append-receipts fresh _ _ _ _ s) λ _ t f.
            Post-pure _ t (rw (f, e) (MovesForward-insert tx.receipts key old new found le))

    offer_first-Forward :
        (receipt : Receipt) (target : Session) (tx : Tx)
        → lookup key tx.receipts ≡ some receipt
        → Post (offer_first receipt_id fresh receipt target input now) tx (Forward tx)
    unfolding offer_first
    offer_first-Forward receipt target tx found =
        elim (Bool-cases (same_state receipt.state ReceiptState.queued)) [
          | inl e ↦ rw e (
              Post-bind-lift _ _ tx
                λ state a. write-Forward receipt _ target tx found (advance-le _ _ _ a))
          | inr e ↦ rw e (Post-pure _ tx (MovesForward-refl tx.receipts))
        ]

    offer_again-Forward :
        (message : Message) (receipt : Receipt) (target : Session) (tx : Tx)
        → lookup key tx.receipts ≡ some receipt
        → Post (offer_again receipt_id fresh message receipt target input now) tx (Forward tx)
    unfolding offer_again
    offer_again-Forward message receipt target tx found =
        elim (Bool-cases (due_for_repeat message receipt now)) [
          | inl e ↦ rw e (write-Forward receipt _ target tx found (omega arith))
          | inr e ↦ rw e (Post-pure _ tx (MovesForward-refl tx.receipts))
        ]

    offer_either-Forward :
        (repeat : Bool) (message : Message) (receipt : Receipt) (target : Session) (tx : Tx)
        → lookup key tx.receipts ≡ some receipt
        → Post
            (if repeat
              then offer_again receipt_id fresh message receipt target input now
              else offer_first receipt_id fresh receipt target input now)
            tx
            (Forward tx)
    offer_either-Forward true m r target tx found = offer_again-Forward m r target tx found
    offer_either-Forward false m r target tx found = offer_first-Forward r target tx found

    pub record_offer_succeeded-Forward :
        (tx : Tx) → Post (record_offer_succeeded receipt_id fresh input now) tx (Forward tx)
    unfolding record_offer_succeeded
    record_offer_succeeded-Forward tx = Post-bind-lift _ _ tx λ _ _.
        Post-bind _ _ tx (require_offerable-IsStored input true tx) λ (m, r) s (same, _, found).
          Post-bind-gets _ _ s (
            Post-bind-lift _ _ s λ target _.
              Post-bind _ _ s (offer_either-Forward input.repeat m r target s (rw same found))
                λ done t f. Post-pure _ t (rw (← same) f))

    pub record_offer_failed-receipts :
        (code : Text) (tx : Tx)
        → Post
            (record_offer_failed receipt_id fresh input code now)
            tx
            (λ _ s. s.receipts ≡ tx.receipts)
    unfolding record_offer_failed
    record_offer_failed-receipts code tx = Post-bind-lift _ _ tx λ _ _.
        Post-bind _ _ tx (require_offerable-IsStored input false tx) λ (m, r) s (same, _, _).
          Post-bind-gets _ _ s (
            Post-bind-lift _ _ s λ target _.
              Post-weaken _ s (append-receipts fresh _ _ _ _ s)
                λ _ t e. e ∙ ap (λ (x : Tx). x.receipts) same)
