-- ===== src/Core/Conversations/Finish/Logged.antt =====
-- What the parts of a finish append to the log of events.
use agents_can_communicate.Base.{
  ℕ, ◌≡◌, refl, ◌∙◌, ap, Option, none, some, List, [], ◌∷◌, ◌++◌, arith, Text, eq_iff, codes, find,
  ok,
}
use agents_can_communicate.Base.Table.{insert, remove, values}
use agents_can_communicate.Protocol.Messages.{Message}
use agents_can_communicate.Core.Records.{Session, Claim, Happening, Event, Tx}
use agents_can_communicate.Core.Transaction.{for_each, append, next_id}
use agents_can_communicate.Core.Transaction.Posts.{
  Post, Post-bind, Post-pure, Post-weaken, Post-bind-lift, Post-bind-gets, Post-modify,
  Post-bind-modify, Post-for_each, Post-for_each_cons, Post-for_each_nil,
}
use agents_can_communicate.Core.FinishRetry.Reading.{AreReleases, ids_of, append_nil, append_assoc}
use agents_can_communicate.Core.Conversations.{MessageInput}
use agents_can_communicate.Core.Conversations.Recording.{
  Recorded, message_of, queue_receipt, put_message, record_unless, record_message, has_client_key,
  find_message_retry,
}
use agents_can_communicate.Core.Conversations.Retries.{
  IsPlain, each_unit, valid_message-same, prepared_input,
}
use agents_can_communicate.Core.Conversations.Finish.{
  check_generation, closed_session, give_back, close_session,
}

-- One event was appended, by this session, and this is what it says.
pub record Appends (before : List Event) (actor : Text) (h : Happening) (after : List Event)
    : Type 0 where
  pub event : Event
  pub grown : after ≡ before ++ event ∷ []
  pub acted : event.actor_session_id ≡ actor
  pub said : event.happening ≡ h

append-Appends :
    (fresh : Text → ℕ → Text) (workspace actor : Text) (now : ℕ) (h : Happening) (tx : Tx)
    → Post (append fresh workspace actor now h) tx (λ _ s. Appends tx.events actor h s.events)
unfolding append
append-Appends fresh workspace actor now h tx = record {
  holds = λ u s e. record {
    event = record {
      event_id = fresh (codes "event") tx.next_id;
      workspace_id = workspace;
      actor_session_id = actor;
      occurred_at = now;
      happening = h;
    };
    grown = ground arith;
    acted = refl;
    said = refl;
  };
}

-- No message has the key, so none is found for any input of that key.
no_retry :
    (tx : Tx) (session : Session) (input : MessageInput) (existing : Option Message)
    → find (has_client_key session input.client_message_id) (values tx.messages) ≡ none
    → find_message_retry tx session input ≡ ok existing
    → existing ≡ none
unfolding find_message_retry
no_retry tx session input existing free h = ground arith

pub check_generation-eq :
    (o : Option Session) (session current : Session)
    → check_generation o session ≡ ok current
    → (o ≡ some current) × (current.generation ≡ session.generation)
unfolding check_generation
check_generation-eq none session current h = absurd (cc)
check_generation-eq (some s) session current h =
    ground (arith, eq_iff s.generation session.generation)

-- The log and the messages stay as they are.
abbrev pub Quiet : Tx → Tx → Type 0
Quiet tx s = (s.events ≡ tx.events) × (s.messages ≡ tx.messages)

module _ (receipt_id : Text → Text → Text) (fresh : Text → ℕ → Text) where
  pub next_id-Quiet : (kind : Text) (tx : Tx) → Post (next_id fresh kind) tx (λ _ s. Quiet tx s)
  unfolding next_id
  next_id-Quiet kind tx = record { holds = λ u s e. (ground arith, ground arith) }

  put_message-events :
      (id : Text) (m : Message) (tx : Tx) → Post (put_message id m) tx (λ _ s. s.events ≡ tx.events)
  unfolding put_message
  put_message-events id m tx =
      Post-bind-gets _ _ tx (Post-bind-lift _ _ tx λ _ _. Post-modify _ tx refl)

  queue_receipt-events :
      (base : List Event) (m : Message) (now : ℕ) (p : Text) (tx : Tx)
      → tx.events ≡ base
      → Post (queue_receipt receipt_id fresh m now p) tx (λ _ s. s.events ≡ base)
  unfolding queue_receipt
  queue_receipt-events base m now p tx i =
      Post-bind-lift _ _ tx
        λ _ _. Post-bind-gets _ _ tx (Post-bind-lift _ _ tx λ _ _. Post-modify _ tx i)

  -- A recording appends one event, which names the message.
  abbrev pub Records : Session → Tx → Recorded → Tx → Type 0
  Records session tx done s =
      (thread_id : Text) × (recipients : List Text) × Appends tx.events session.session_id
        (Happening.message_recorded done.message.message_id thread_id recipients) s.events

  record_unless-Records :
      (session : Session) (input : MessageInput) (now : ℕ) (id : Text) (tx : Tx)
      → Post (record_unless receipt_id fresh session input now id none) tx (Records session tx)
  unfolding record_unless message_of
  record_unless-Records session input now id tx = Post-bind-gets _ _ tx (
      Post-bind-lift _ _ tx λ thread _. Post-bind-lift _ _ tx λ m valid. Post-bind-gets _ _ tx (
        Post-bind-lift _ _ tx λ recipients _. Post-bind _ _ tx (put_message-events id m tx) λ _ s i.
          Post-bind _ _ s
            (Post-for_each (λ _. Unit {0}) (λ t. t.events ≡ tx.events) _
              (λ p t _ j. queue_receipt-events tx.events m now p t j) recipients s
              (each_unit recipients) i)
            λ _ t j. Post-bind _ _ t (append-Appends fresh _ _ now _ t) λ _ u k.
              let same : m.message_id ≡ id =
                ap (λ (n : Message). n.message_id) (valid_message-same _ m valid) in
              Post-pure _ u (
                m.thread_id,
                recipients,
                record {
                  event = k.event;
                  grown = k.grown ∙ rw j refl;
                  acted = k.acted;
                  said = k.said ∙ rw same refl;
                },
              )))

  pub record_message-Records :
      (session : Session) (raw : MessageInput) (now : ℕ) (id : Text) (tx : Tx)
      → IsPlain raw
      → find (has_client_key session raw.client_message_id) (values tx.messages) ≡ none
      → Post (record_message receipt_id fresh session raw now id) tx (Records session tx)
  unfolding record_message
  record_message-Records session raw now id tx plain free = Post-bind-gets _ _ tx (
      Post-bind-lift _ _ tx λ u _. Post-bind-gets _ _ tx (
        Post-bind-lift _ _ tx λ to _. Post-bind-gets _ _ tx (
          Post-bind-lift _ _ tx λ input c. Post-bind-gets _ _ tx (
            Post-bind-lift _ _ tx λ existing d.
              let same = prepared_input tx session raw to input plain c in
              rw (no_retry tx session input existing (rw same free) d)
                (record_unless-Records session input now id tx)))))

  -- The claims are given back one by one.
  abbrev pub Releases : Session → List Claim → Tx → Tx → Type 0
  Releases session cs tx s =
      (es : List Event) × (s.events ≡ tx.events ++ es) × AreReleases session.session_id es cs

  give_back-Appends :
      (session : Session) (now : ℕ) (c : Claim) (tx : Tx)
      → Post (give_back receipt_id fresh session now c) tx (λ _ s.
        Appends tx.events session.session_id
          (Happening.claim_released c.claim_id none none c.generation)
          s.events)
  unfolding give_back
  give_back-Appends session now c tx =
      Post-bind-modify _ _ tx
        (append-Appends fresh _ _ now _ (record tx { claims = remove c.claim_id tx.claims }))

  pub give_all-Releases :
      (session : Session) (now : ℕ) (cs : List Claim) (tx : Tx)
      → Post
          (for_each (give_back receipt_id fresh session now) cs)
          tx
          (λ _ s. Releases session cs tx s)
  give_all-Releases session now [] tx =
      Post-for_each_nil _ tx ([], append_nil tx.events, AreReleases.no_more)
  give_all-Releases session now (c ∷ cs) tx =
      Post-for_each_cons _ c cs tx (give_back-Appends session now c tx) λ s a.
        Post-weaken _ s (give_all-Releases session now cs s) λ _ t (es, grown, more). (
          a.event ∷ es,
          grown ∙ rw a.grown (append_assoc tx.events (a.event ∷ []) es),
          AreReleases.one_more a.event c (record { by_session = a.acted; gives = a.said }) more,
        )

  pub close_session-Appends :
      (session current : Session) (now : ℕ) (m : Message) (cs : List Claim) (tx : Tx)
      → Post (close_session receipt_id fresh session current now m cs) tx (λ closed s.
        (closed ≡ closed_session current now)
        × Appends tx.events session.session_id
            (Happening.session_finished m.message_id session.generation (ids_of cs))
            s.events)
  unfolding close_session
  close_session-Appends session current now m cs tx = Post-bind-modify _ _ tx (
      Post-bind _ _ _
        (append-Appends fresh _ _ now _ (record tx {
          sessions = insert session.session_id (closed_session current now) tx.sessions;
        }))
        λ _ s a. Post-pure _ s (refl, a))
