-- ===== src/Core/Inbox/Forward.antt =====
-- No history of messages, offers and readings takes a receipt back.
use agents_can_communicate.Base.{
  ℕ, ◌≤◌, ◌≡◌, refl, Bool, true, false, Option, some, Text, ok, if◌then◌else◌, Bool-cases, inl, inr,
  found_in,
}
use agents_can_communicate.Base.Table.{lookup}
use agents_can_communicate.Protocol.States.{ReceiptState, position, same_state, advance-le}
use agents_can_communicate.Protocol.Messages.{Message}
use agents_can_communicate.Core.Records.{Session, Receipt, Tx}
use agents_can_communicate.Core.Transaction.{pure}
use agents_can_communicate.Core.Transaction.Posts.{
  Post, Post-bind, Post-pure, Post-bind-lift, Post-bind-gets,
}
use agents_can_communicate.Core.Receipts.{OfferInput, record_offer_succeeded, record_offer_failed}
use agents_can_communicate.Core.Receipts.Forward.{
  MovesForward, MovesForward-refl, MovesForward-trans, MovesForward-insert, append-receipts,
  put_receipt-receipts, record_offer_succeeded-Forward, record_offer_failed-receipts,
}
use agents_can_communicate.Core.Conversations.{MessageInput}
use agents_can_communicate.Core.Conversations.Recording.{Recorded, record_message}
use agents_can_communicate.Core.Conversations.Delivery.{Extends-MovesForward, record_message-Post}
use agents_can_communicate.Core.Inbox.{
  ReplyInput, require_owned_receipt, move_receipt, advance_owned, acknowledge_message, retrieve,
  recoverable, read_message, reply_to_message, reply_message,
}

module _ (receipt_id : Text → Text → Text) (fresh : Text → ℕ → Text) where
  abbrev Forward {ℓ} : {A : Type ℓ} → Tx → A → Tx → Type 0
  Forward tx _ s = MovesForward tx.receipts s.receipts

  owned-IsStored :
      (session : Session) (message_id : Text) (tx : Tx)
      → Post (require_owned_receipt receipt_id session message_id) tx (λ found s.
        (s ≡ tx)
        × (lookup (receipt_id message_id session.participant_id) tx.receipts ≡ some found.1))
  unfolding require_owned_receipt
  owned-IsStored session message_id tx = Post-bind-gets _ _ tx (
      Post-bind-gets _ _ tx (
        Post-bind-lift _ _ tx
          λ m _. Post-bind-lift _ _ tx λ r f. Post-pure _ tx (refl, found_in _ _ _ f)))

  move_receipt-Forward :
      (session : Session) (m : Message) (r : Receipt) (message_id : Text) (next : ReceiptState)
      (now : ℕ) (tx : Tx)
      → lookup (receipt_id message_id session.participant_id) tx.receipts ≡ some r
      → position r.state ≤ position next
      → Post (move_receipt receipt_id fresh session m r message_id next now) tx (Forward tx)
  unfolding move_receipt
  move_receipt-Forward session m r message_id next now tx found le =
      Post-bind _ _ tx (put_receipt-receipts _ _ tx) λ _ s e.
        Post-bind _ _ s (append-receipts fresh _ _ _ _ s)
          λ _ t f. Post-pure _ t (rw (f, e) (MovesForward-insert tx.receipts _ r _ found le))

  moved-or-same :
      (still : Bool) (session : Session) (m : Message) (r : Receipt) (message_id : Text)
      (next : ReceiptState) (now : ℕ) (tx : Tx)
      → lookup (receipt_id message_id session.participant_id) tx.receipts ≡ some r
      → position r.state ≤ position next
      → Post
          (if still then pure r else move_receipt receipt_id fresh session m r message_id next now)
          tx
          (Forward tx)
  moved-or-same true session m r message_id next now tx found le =
      Post-pure _ tx (MovesForward-refl tx.receipts)
  moved-or-same false session m r message_id next now tx found le =
      move_receipt-Forward session m r message_id next now tx found le

  advance_owned-Forward :
      (session : Session) (message_id : Text) (state : ReceiptState) (now : ℕ) (tx : Tx)
      → Post (advance_owned receipt_id fresh session message_id state now) tx (Forward tx)
  unfolding advance_owned
  advance_owned-Forward session message_id state now tx =
      Post-bind _ _ tx (owned-IsStored session message_id tx) λ (m, r) s (same, found).
        Post-bind-lift _ _ s λ next a.
          Post-bind _ _ s
            (moved-or-same _ session m r message_id next now s (rw same found) (advance-le _ _ _ a))
            λ r' t f. Post-pure _ t (rw (← same) f)

  acknowledge-Forward :
      (located ephemeral : Option Session) (sid generation message_id : Text) (now : ℕ) (tx : Tx)
      → Post
          (acknowledge_message receipt_id fresh located ephemeral sid generation message_id now)
          tx
          (Forward tx)
  unfolding acknowledge_message
  acknowledge-Forward located ephemeral sid generation message_id now tx =
      Post-bind-lift _ _ tx λ session _. Post-bind-gets _ _ tx (
        Post-bind-lift _ _ tx λ _ _.
          Post-bind _ _ tx (owned-IsStored session message_id tx) λ (m, r) s (same, _).
            Post-bind-lift _ _ s λ _ _.
              Post-bind _ _ s (advance_owned-Forward session message_id _ now s)
                λ (_, done) t f. Post-pure _ t (rw (← same) f))

  retrieve-Forward :
      (session : Session) (message_id : Text) (m : Message) (r : Receipt) (now : ℕ) (tx : Tx)
      → Post (retrieve receipt_id fresh session message_id m r now) tx (Forward tx)
  unfolding retrieve
  retrieve-Forward session message_id m r now tx =
      elim (Bool-cases (same_state r.state ReceiptState.acknowledged)) [
        | inl e ↦ rw e (Post-pure _ tx (MovesForward-refl tx.receipts))
        | inr e ↦ rw e (
            Post-bind _ _ tx (advance_owned-Forward session message_id _ now tx)
              λ (_, done) t f. Post-pure _ t f)
      ]

  recoverable-same :
      (session : Session) (message_id : Text) (tx : Tx)
      → Post (recoverable receipt_id session message_id) tx (λ _ s. s ≡ tx)
  unfolding recoverable
  recoverable-same session message_id tx = Post-bind-gets _ _ tx (
      Post-bind-lift _ _ tx λ r _.
        Post-bind-lift _ _ tx
          λ _ _. Post-bind-gets _ _ tx (Post-bind-lift _ _ tx λ m _. Post-pure _ tx refl))

  read-Forward :
      (located ephemeral : Option Session) (sid generation message_id : Text) (now : ℕ) (tx : Tx)
      → Post
          (read_message receipt_id fresh located ephemeral sid generation message_id now)
          tx
          (Forward tx)
  unfolding read_message
  read-Forward located ephemeral sid generation message_id now tx =
      Post-bind-lift _ _ tx λ session _. Post-bind-gets _ _ tx (
        Post-bind-lift _ _ tx λ _ _.
          Post-bind _ _ tx (recoverable-same session message_id tx) λ (m, r) s same.
            Post-bind _ _ s (retrieve-Forward session message_id m r now s)
              λ done t f. Post-pure _ t (rw (← same) f))

  reply-Forward :
      (located : Option Session) (generation : Text) (input : ReplyInput) (reply_id : Text)
      (now : ℕ) (tx : Tx)
      → Post
          (reply_to_message receipt_id fresh located generation input reply_id now)
          tx
          (Forward tx)
  unfolding reply_to_message
  reply-Forward located generation input reply_id now tx = Post-bind-lift _ _ tx λ session _.
      Post-bind _ _ tx (owned-IsStored session input.message_id tx) λ (m, r) s (same, _).
        Post-bind _ _ s
          (record_message-Post receipt_id fresh session (reply_message input m) now reply_id s)
          λ recorded t (kept, _).
            Post-bind _ _ t (advance_owned-Forward session input.message_id _ now t)
              λ (_, done) u f.
                Post-pure _ u
                  (rw (← same) (MovesForward-trans _ _ _ (Extends-MovesForward _ _ kept) f))

  -- One transaction that returned.
  pub data Commit (tx tx' : Tx) : Type 0 where
    recorded :
        (session : Session) (input : MessageInput) (now : ℕ) (message_id : Text) (done : Recorded)
        → record_message receipt_id fresh session input now message_id tx ≡ ok (done, tx')
        → Commit tx tx'
    offered :
        (input : OfferInput) (now : ℕ) (done : Receipt)
        → record_offer_succeeded receipt_id fresh input now tx ≡ ok (done, tx')
        → Commit tx tx'
    refused :
        (input : OfferInput) (code : Text) (now : ℕ)
        → record_offer_failed receipt_id fresh input code now tx ≡ ok (tt, tx')
        → Commit tx tx'
    read :
        (located ephemeral : Option Session) (session_id generation message_id : Text) (now : ℕ)
        (done : Message × Receipt)
        → read_message receipt_id fresh located ephemeral session_id generation message_id now tx
          ≡ ok (done, tx')
        → Commit tx tx'
    acknowledged :
        (located ephemeral : Option Session) (session_id generation message_id : Text) (now : ℕ)
        (done : Receipt)
        → acknowledge_message receipt_id fresh located ephemeral session_id generation message_id
            now tx
          ≡ ok (done, tx')
        → Commit tx tx'
    replied :
        (located : Option Session) (generation : Text) (input : ReplyInput) (reply_id : Text)
        (now : ℕ) (done : Message × Receipt)
        → reply_to_message receipt_id fresh located generation input reply_id now tx
          ≡ ok (done, tx')
        → Commit tx tx'

  pub data Commits (tx : Tx) : Tx → Type 0 where
    start : Commits tx tx
    next : {s t : Tx} → Commits tx s → Commit s t → Commits tx t

  commit-Forward : (s t : Tx) → Commit s t → MovesForward s.receipts t.receipts
  commit-Forward s t (recorded session input now id done h) =
      Extends-MovesForward s.receipts t.receipts
        (((record_message-Post receipt_id fresh session input now id s).holds done t h).0)
  commit-Forward s t (offered input now done h) =
      (record_offer_succeeded-Forward receipt_id fresh input now s).holds done t h
  commit-Forward s t (refused input code now h) =
      rw ((record_offer_failed-receipts receipt_id fresh input now code s).holds tt t h)
        (MovesForward-refl s.receipts)
  commit-Forward s t (read located ephemeral sid generation id now done h) =
      (read-Forward located ephemeral sid generation id now s).holds done t h
  commit-Forward s t (acknowledged located ephemeral sid generation id now done h) =
      (acknowledge-Forward located ephemeral sid generation id now s).holds done t h
  commit-Forward s t (replied located generation input id now done h) =
      (reply-Forward located generation input id now s).holds done t h

  -- Whatever transactions record, offer, read, acknowledge and answer messages, no receipt is lost,
  -- and each is in the state that it had or a later one.
  pub receipts_move_forward : (tx tx' : Tx) → Commits tx tx' → MovesForward tx.receipts tx'.receipts
  receipts_move_forward tx _ start = MovesForward-refl tx.receipts
  receipts_move_forward tx t (next {s = s} before step) =
      MovesForward-trans _ _ _ (receipts_move_forward tx s before) (commit-Forward s t step)
