-- ===== src/Core/Conversations/Retries.antt =====
-- A client that does not know whether its message arrived sends it again under the same key.
use agents_can_communicate.Base.{
  ℕ, ◌≡◌, refl, ◌∙◌, Bool, true, false, Option, none, some, List, [], ◌∷◌, ◌++◌, arith, Text,
  eq_refl, is_none, find, ok, Exit, required, after_check, All,
}
use agents_can_communicate.Base.Table.{Table, lookup, insert, values}
use agents_can_communicate.Protocol.Messages.{Message, assert_message_semantics}
use agents_can_communicate.Protocol.Messages.Records.{valid_message}
use agents_can_communicate.Protocol.Messages.Semantics.{assert_cases}
use agents_can_communicate.Core.Records.{Session, Happening, Tx}
use agents_can_communicate.Core.Transaction.{◌>>=◌, append}
use agents_can_communicate.Core.Transaction.Posts.{
  Post, Post-bind, Post-pure, Post-weaken, Post-bind-lift, Post-bind-gets, Post-modify,
  Post-for_each,
}
use agents_can_communicate.Core.Conversations.{
  MessageInput, resolve_addressees, resolve_addressee, known_participants, open_participants,
}
use agents_can_communicate.Core.Conversations.Changes.{prepare_decision_change}
use agents_can_communicate.Core.Conversations.Content.{same_content, same_content_of_input}
use agents_can_communicate.Core.Conversations.Recording.{
  Recorded, message_of, queue_receipt, put_message, record_unless, record_message, has_client_key,
  find_message_retry, assert_current_session,
}

values-insert {ℓ} :
    {A : Type ℓ} (k : Text) (a : A) (t : Table A)
    → is_none (lookup k t) ≡ true
    → values (insert k a t) ≡ values t ++ a ∷ []
unfolding values insert lookup
values-insert k a [] h = refl
values-insert k a ((j, b) ∷ t) h = ground (arith, values-insert k a t)

find-append {ℓ} :
    {A : Type ℓ} (p : A → Bool) (xs : List A) (a : A)
    → find p xs ≡ none
    → p a ≡ true
    → find p (xs ++ a ∷ []) ≡ some a
unfolding find
find-append p [] a h t = ground arith
find-append p (x ∷ xs) a h t = ground (arith, find-append p xs a)

accepted-same : (m m' : Message) → assert_message_semantics m ≡ ok m' → m' ≡ m
accepted-same m m' h = ground (arith, assert_cases m)

pub valid_message-same : (m m' : Message) → valid_message m ≡ ok m' → m' ≡ m
unfolding valid_message
valid_message-same m m' h =
    accepted-same m m' (after_check _ Exit.invalid (assert_message_semantics m) m' h)

-- The key and the content of a message are those of the input that it was made of.
message_of-key :
    (session : Session) (input : MessageInput) (now : ℕ) (id thread : Text)
    → has_client_key session input.client_message_id (message_of session input now id thread) ≡ true
unfolding has_client_key message_of
message_of-key session input now id thread = ground (
  arith,
  eq_refl session.workspace_id,
  eq_refl session.participant_id,
  eq_refl input.client_message_id,
)

message_of-content :
    (session : Session) (input : MessageInput) (now : ℕ) (id thread : Text)
    → same_content (message_of session input now id thread) input ≡ true
unfolding message_of
message_of-content session input now id thread =
    same_content_of_input (message_of session input now id thread) input refl refl refl refl refl
      refl refl refl refl

-- Nobody joined or left.
abbrev SamePeople : Tx → Tx → Type 0
SamePeople tx s = (s.participants ≡ tx.participants) × (s.sessions ≡ tx.sessions)

resolve-SamePeople :
    (tx s : Tx) (session : Session) (names : List Text)
    → SamePeople tx s
    → resolve_addressees s session names ≡ resolve_addressees tx session names
unfolding resolve_addressees resolve_addressee known_participants open_participants
resolve-SamePeople tx s session names (p, q) = rw (p, q) refl

-- A client that sends a plain message: it changes no decision.
abbrev pub IsPlain : MessageInput → Type 0
IsPlain raw = (raw.supersedes ≡ none) × (raw.withdraws ≡ none) × (raw.decision_change ≡ none)

prepare_plain :
    (tx : Tx) (raw : MessageInput) (session : Session)
    → IsPlain raw
    → prepare_decision_change tx raw session ≡ ok raw
unfolding prepare_decision_change
prepare_plain tx raw session (a, b, c) = rw (a, b, c) refl

pub prepared_input :
    (tx : Tx) (session : Session) (raw : MessageInput) (to : List Text) (input : MessageInput)
    → IsPlain raw
    → prepare_decision_change tx (record raw { to_participant_ids = to }) session ≡ ok input
    → input ≡ record raw { to_participant_ids = to }
prepared_input tx session raw to input plain h =
    ground (arith, h, prepare_plain tx (record raw { to_participant_ids = to }) session plain)

pub each_unit {ℓ} : {A : Type ℓ} (xs : List A) → All (λ _. Unit {0}) xs
each_unit [] = tt
each_unit (x ∷ xs) = (tt, each_unit xs)

pub found_key :
    (tx : Tx) (session : Session) (input : MessageInput)
    → find_message_retry tx session input ≡ ok none
    → find (has_client_key session input.client_message_id) (values tx.messages) ≡ none
unfolding find_message_retry
found_key tx session input h = ground arith

-- A message that is new is found by its key from then on.
find_after :
    (tx s : Tx) (session : Session) (input : MessageInput) (m : Message) (id : Text)
    → find_message_retry tx session input ≡ ok none
    → is_none (lookup id tx.messages) ≡ true
    → s.messages ≡ insert id m tx.messages
    → has_client_key session input.client_message_id m ≡ true
    → same_content m input ≡ true
    → find_message_retry s session input ≡ ok (some m)
unfolding find_message_retry
find_after tx s session input m id none_yet new e key content =
    rw
      (
        e,
        values-insert id m tx.messages new,
        find-append _ (values tx.messages) m (found_key tx session input none_yet) key,
        content,
      )
      refl

module _ (receipt_id : Text → Text → Text) (fresh : Text → ℕ → Text) where
  -- A state in which the message of an input is found by its key.
  record IsKnown (session : Session) (raw : MessageInput) (to : List Text) (m : Message) (s : Tx)
      : Type 0 where
    session_there : assert_current_session (lookup session.session_id s.sessions) session ≡ ok tt
    resolved : resolve_addressees s session raw.to_participant_ids ≡ ok to
    stored : find_message_retry s session (record raw { to_participant_ids = to }) ≡ ok (some m)

  known_again :
      (session : Session) (raw : MessageInput) (to : List Text) (m : Message) (s : Tx) (later : ℕ)
      (other_id : Text)
      → IsPlain raw
      → IsKnown session raw to m s
      → record_message receipt_id fresh session raw later other_id s
        ≡ ok (record { message = m; recipients = []; created = false }, s)
  unfolding record_message record_unless ◌>>=◌
  known_again session raw to m s later other_id plain v =
      rw
        (
          v.session_there,
          v.resolved,
          prepare_plain s (record raw { to_participant_ids = to }) session plain,
          v.stored,
        )
        refl

  -- What the writes of a recording leave alone, and what they store.
  abbrev Stores : Text → Message → Tx → Tx → Type 0
  Stores id m tx s = SamePeople tx s × (s.messages ≡ insert id m tx.messages)

  queue_keeps :
      (m : Message) (now : ℕ) (id : Text) (base : Tx) (p : Text) (tx : Tx)
      → Stores id m base tx
      → Post (queue_receipt receipt_id fresh m now p) tx (λ _ s. Stores id m base s)
  unfolding queue_receipt
  queue_keeps m now id base p tx i =
      Post-bind-lift _ _ tx
        λ _ _. Post-bind-gets _ _ tx (Post-bind-lift _ _ tx λ _ _. Post-modify _ tx i)

  append_keeps :
      (id : Text) (m : Message) (base : Tx) (workspace actor : Text) (now : ℕ) (h : Happening)
      (tx : Tx)
      → Stores id m base tx
      → Post (append fresh workspace actor now h) tx (λ _ s. Stores id m base s)
  unfolding append
  append_keeps id m base workspace actor now h tx i = record {
    holds = λ u s e. ((ground arith, ground arith), ground arith);
  }

  put_message-Stores :
      (id : Text) (m : Message) (tx : Tx)
      → Post
          (put_message id m)
          tx
          (λ _ s. Stores id m tx s × (is_none (lookup id tx.messages) ≡ true))
  unfolding put_message
  put_message-Stores id m tx =
      Post-bind-gets _ _ tx
        (Post-bind-lift _ _ tx λ u new. Post-modify _ tx (((refl, refl), refl), required _ _ u new))

  module _ (session : Session) (raw : MessageInput) (to : List Text) where
    abbrev input : MessageInput
    input = record raw { to_participant_ids = to }

    stored-IsKnown :
        (now : ℕ) (id thread : Text) (m : Message) (tx s : Tx)
        → m ≡ message_of session input now id thread
        → assert_current_session (lookup session.session_id tx.sessions) session ≡ ok tt
        → resolve_addressees tx session raw.to_participant_ids ≡ ok to
        → find_message_retry tx session input ≡ ok none
        → is_none (lookup id tx.messages) ≡ true
        → Stores id m tx s
        → IsKnown session raw to m s
    stored-IsKnown now id thread m tx s same a b c new ((p, q), e) = record {
      session_there = rw q a;
      resolved = resolve-SamePeople tx s session raw.to_participant_ids (p, q) ∙ b;
      stored =
          find_after tx s session input m id c new e
            (rw same (message_of-key session input now id thread))
            (rw same (message_of-content session input now id thread));
    }

    record_unless-IsKnown :
        (now : ℕ) (id : Text) (existing : Option Message) (tx : Tx)
        → assert_current_session (lookup session.session_id tx.sessions) session ≡ ok tt
        → resolve_addressees tx session raw.to_participant_ids ≡ ok to
        → find_message_retry tx session input ≡ ok existing
        → Post
            (record_unless receipt_id fresh session input now id existing)
            tx
            (λ done s. IsKnown session raw to done.message s)
    unfolding record_unless
    record_unless-IsKnown now id (some m) tx a b c =
        Post-pure _ tx (record { session_there = a; resolved = b; stored = c })
    record_unless-IsKnown now id none tx a b c = Post-bind-gets _ _ tx (
        Post-bind-lift _ _ tx λ thread _. Post-bind-lift _ _ tx λ m valid. Post-bind-gets _ _ tx (
          Post-bind-lift _ _ tx λ recipients _.
            Post-bind _ _ tx (put_message-Stores id m tx) λ _ s (i, new).
              Post-bind _ _ s
                (Post-for_each (λ _. Unit {0}) (Stores id m tx) _
                  (λ p t _ j. queue_keeps m now id tx p t j) recipients s (each_unit recipients) i)
                λ _ t j. Post-bind _ _ t (append_keeps id m tx _ _ now _ t j) λ _ u k.
                  Post-pure _ u (
                    stored-IsKnown now id thread m tx u (valid_message-same _ m valid) a b c new
                      k)))

  recorded_again :
      (session : Session) (raw : MessageInput) (now later : ℕ) (id other_id : Text) (tx : Tx)
      → IsPlain raw
      → Post (record_message receipt_id fresh session raw now id) tx (λ done s.
        record_message receipt_id fresh session raw later other_id s
        ≡ ok (record { message = done.message; recipients = []; created = false }, s))
  unfolding record_message
  recorded_again session raw now later id other_id tx plain = Post-bind-gets _ _ tx (
      Post-bind-lift _ _ tx λ u a. Post-bind-gets _ _ tx (
        Post-bind-lift _ _ tx λ to b. Post-bind-gets _ _ tx (
          Post-bind-lift _ _ tx λ input c. Post-bind-gets _ _ tx (
            Post-bind-lift _ _ tx λ existing d.
              Post-weaken _ tx
                (rw (prepared_input tx session raw to input plain c) (
                  record_unless-IsKnown session raw to now id existing tx a b
                    (rw (← prepared_input tx session raw to input plain c) d)))
                λ done s v. known_again session raw to done.message s later other_id plain v))))

  -- Sending a plain message once more with the same content, at any later time and whatever id was
  -- handed out for it, writes nothing and returns the message that the first call recorded.
  pub record_message_idem :
      (session : Session) (raw : MessageInput) (now later : ℕ) (id other_id : Text) (tx tx' : Tx)
      (done : Recorded)
      → IsPlain raw
      → record_message receipt_id fresh session raw now id tx ≡ ok (done, tx')
      → record_message receipt_id fresh session raw later other_id tx'
        ≡ ok (record { message = done.message; recipients = []; created = false }, tx')
  record_message_idem session raw now later id other_id tx tx' done plain h =
      (recorded_again session raw now later id other_id tx plain).holds done tx' h
