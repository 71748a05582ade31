-- ===== src/Core/Conversations/Delivery.antt =====
-- What recording a message does to receipts: each recipient gets one, and no other changes.
use agents_can_communicate.Base.{
  ℕ, ◌≡◌, refl, ◌∙◌, true, Option, none, some, List, [], ◌∷◌, arith, Text, ◌==◌, ok, eq_iff,
  is_none, All, required, Bool-cases, inl, inr,
}
use agents_can_communicate.Base.Table.{Table, lookup, insert, lookup-insert}
use agents_can_communicate.Protocol.Messages.{Message}
use agents_can_communicate.Core.Records.{Session, Receipt, Tx}
use agents_can_communicate.Core.Transaction.{for_each}
use agents_can_communicate.Core.Transaction.Posts.{
  Post, Post-bind, Post-pure, Post-weaken, Post-bind-lift, Post-bind-gets, Post-modify,
  Post-for_each_cons, Post-for_each_nil,
}
use agents_can_communicate.Core.Receipts.Forward.{MovesForward, append-receipts}
use agents_can_communicate.Core.Conversations.{MessageInput}
use agents_can_communicate.Core.Conversations.Recipients.{
  IsAddressed, addressed_recipients-IsAddressed,
}
use agents_can_communicate.Protocol.States.{ReceiptState}
use agents_can_communicate.Core.Conversations.Recording.{
  Recorded, queued_receipt, queue_receipt, put_message, record_unless, record_message,
}

-- What is stored stays as it is.
abbrev pub Extends {ℓ} : {A : Type ℓ} → Table A → Table A → Type ℓ
Extends {A = A} before after =
    (k : Text) (a : A) → lookup k before ≡ some a → lookup k after ≡ some a

pub Extends-insert {ℓ} :
    {A : Type ℓ} (k : Text) (a : A) (t : Table A)
    → is_none (lookup k t) ≡ true
    → Extends t (insert k a t)
Extends-insert k a t new j b h = elim (Bool-cases (k == j)) [
  | inl e ↦ ground (arith, eq_iff k j)
  | inr e ↦ lookup-insert k j a t ∙ rw e h
]

pub Extends-MovesForward : (t u : Table Receipt) → Extends t u → MovesForward t u
Extends-MovesForward t u f k r h = (r, f k r h, omega arith)

module _ (receipt_id : Text → Text → Text) (fresh : Text → ℕ → Text) where
  -- What is stored for the recipient.
  abbrev Awaits : Message → (now : ℕ) → Table Receipt → (participant_id : Text) → Type 0
  Awaits m now t participant_id =
      lookup (receipt_id m.message_id participant_id) t ≡ some (queued_receipt m now participant_id)

  queue_one :
      (m : Message) (now : ℕ) (p : Text) (tx : Tx)
      → Post
          (queue_receipt receipt_id fresh m now p)
          tx
          (λ _ s. Extends tx.receipts s.receipts × Awaits m now s.receipts p)
  unfolding queue_receipt
  queue_one m now p tx = Post-bind-lift _ _ tx λ _ _. Post-bind-gets _ _ tx (
      Post-bind-lift _ _ tx λ u new. Post-modify _ tx (
        Extends-insert _ _ tx.receipts (required _ _ u new),
        lookup-insert (receipt_id m.message_id p) (receipt_id m.message_id p) _ tx.receipts
            ∙ rw ((eq_iff _ _).1 refl) refl,
      ))

  still_await :
      (m : Message) (now : ℕ) (ps : List Text) (t u : Table Receipt)
      → Extends t u
      → All (Awaits m now t) ps
      → All (Awaits m now u) ps
  still_await m now [] t u e a = tt
  still_await m now (p ∷ ps) t u e a = (e _ _ a.0, still_await m now ps t u e a.1)

  queue_each :
      (m : Message) (now : ℕ) (ps : List Text) (tx : Tx)
      → Post
          (for_each (queue_receipt receipt_id fresh m now) ps)
          tx
          (λ _ s. Extends tx.receipts s.receipts × All (Awaits m now s.receipts) ps)
  queue_each m now [] tx = Post-for_each_nil _ tx (λ k a h. h, tt)
  queue_each m now (p ∷ ps) tx = Post-for_each_cons _ p ps tx (queue_one m now p tx) λ s (e, a).
      Post-weaken _ s (queue_each m now ps s) λ _ t (f, b). (λ k r h. f k r (e k r h), (f _ _ a, b))

  put_message-receipts :
      (id : Text) (m : Message) (tx : Tx)
      → Post
          (put_message id m)
          tx
          (λ _ s. (s.receipts ≡ tx.receipts) × (s.messages ≡ insert id m tx.messages))
  unfolding put_message
  put_message-receipts id m tx =
      Post-bind-gets _ _ tx (Post-bind-lift _ _ tx λ _ _. Post-modify _ tx (refl, refl))

  -- A receipt of the recipient for this message is stored, and it is queued: nothing was offered or
  -- read yet, and the obligation of the message is open.
  pub record IsQueued (m : Message) (now : ℕ) (t : Table Receipt) (participant_id : Text)
      : Type 0 where
    pub receipt : Receipt
    pub stored : lookup (receipt_id m.message_id participant_id) t ≡ some receipt
    pub queued : receipt.state ≡ ReceiptState.queued
    pub about : receipt.message_id ≡ m.message_id
    pub theirs : receipt.recipient_participant_id ≡ participant_id
    pub room : receipt.workspace_id ≡ m.workspace_id
    pub not_offered : receipt.offer ≡ none
    pub asks : receipt.obligation ≡ some m.obligation
    pub fresh_since : receipt.updated_at ≡ now

  Awaits-IsQueued :
      (m : Message) (now : ℕ) (t : Table Receipt) (p : Text) → Awaits m now t p → IsQueued m now t p
  unfolding queued_receipt
  Awaits-IsQueued m now t p h = record {
    receipt = queued_receipt m now p;
    stored = h;
    queued = refl;
    about = refl;
    theirs = refl;
    room = refl;
    not_offered = refl;
    asks = refl;
    fresh_since = refl;
  }

  All-IsQueued :
      (m : Message) (now : ℕ) (t : Table Receipt) (ps : List Text)
      → All (Awaits m now t) ps
      → All (IsQueued m now t) ps
  All-IsQueued m now t [] a = tt
  All-IsQueued m now t (p ∷ ps) a = (Awaits-IsQueued m now t p a.0, All-IsQueued m now t ps a.1)

  -- What recording comes to: no receipt that was there changes, and a message that is new is queued
  -- for each of its recipients, who are those that it is addressed to.
  abbrev pub Delivered : Session → (now : ℕ) → Tx → Recorded → Tx → Type 0
  Delivered session now tx done s =
      Extends tx.receipts s.receipts
      × (done.created ≡ true
          → IsAddressed tx session done.message.to_participant_ids done.recipients
            × All (IsQueued done.message now s.receipts) done.recipients)

  record_unless-Delivered :
      (session : Session) (input : MessageInput) (now : ℕ) (message_id : Text)
      (existing : Option Message) (tx : Tx)
      → Post
          (record_unless receipt_id fresh session input now message_id existing)
          tx
          (Delivered session now tx)
  unfolding record_unless
  record_unless-Delivered session input now message_id (some m) tx =
      Post-pure _ tx (λ k r h. h, λ e. cc)
  record_unless-Delivered session input now message_id none tx = Post-bind-gets _ _ tx (
      Post-bind-lift _ _ tx λ thread_id _. Post-bind-lift _ _ tx λ m _. Post-bind-gets _ _ tx (
        Post-bind-lift _ _ tx λ recipients addressed.
          Post-bind _ _ tx (put_message-receipts _ _ tx) λ _ s (same, _).
            Post-bind _ _ s (queue_each m now recipients s) λ _ t (e, a).
              Post-bind _ _ t (append-receipts fresh _ _ _ _ t) λ _ u f. Post-pure _ u (
                rw f (λ k r h. e k r (rw same h)),
                λ _. (
                  addressed_recipients-IsAddressed tx session _ recipients addressed,
                  All-IsQueued m now _ recipients (rw f a),
                ),
              )))

  pub record_message-Post :
      (session : Session) (raw : MessageInput) (now : ℕ) (message_id : Text) (tx : Tx)
      → Post
          (record_message receipt_id fresh session raw now message_id)
          tx
          (Delivered session now tx)
  unfolding record_message
  record_message-Post session raw now message_id tx = Post-bind-gets _ _ tx (
      Post-bind-lift _ _ tx λ _ _. Post-bind-gets _ _ tx (
        Post-bind-lift _ _ tx λ to _. Post-bind-gets _ _ tx (
          Post-bind-lift _ _ tx λ input _. Post-bind-gets _ _ tx (
            Post-bind-lift _ _ tx
              λ existing _. record_unless-Delivered session input now message_id existing tx))))

  -- When a message is recorded, no receipt that was there has changed. If it is new, it goes to
  -- the participants it names, all of them known, or, if it names none, to exactly those others
  -- whose session is open; and each of these has a receipt for it, queued, not offered, with the
  -- obligation of the message.
  pub record_message-Delivered :
      (session : Session) (raw : MessageInput) (now : ℕ) (message_id : Text) (tx tx' : Tx)
      (done : Recorded)
      → record_message receipt_id fresh session raw now message_id tx ≡ ok (done, tx')
      → Delivered session now tx done tx'
  record_message-Delivered session raw now message_id tx tx' done h =
      (record_message-Post session raw now message_id tx).holds done tx' h
