-- ===== src/Core/Conversations/Finish/Roundtrip.antt =====
-- A finish that is sent once more returns what the first one released.
use agents_can_communicate.Base.{
  ℕ, ◌≡◌, refl, ◌∙◌, ap, true, false, Option, none, some, List, ◌∷◌, ◌++◌, map, Text, ◌==◌, any,
  distinct, All, ok, [],
}
use agents_can_communicate.Base.Table.{lookup}
use agents_can_communicate.Protocol.Messages.{Message}
use agents_can_communicate.Core.Records.{Session, Claim, Happening, Event, Tx, is_open}
use agents_can_communicate.Core.Transaction.Posts.{
  Post, Post-bind, Post-pure, Post-weaken, Post-bind-lift, Post-bind-gets,
}
use agents_can_communicate.Core.FinishRetry.{
  project_released_claim, reconstruct_finish_retry, is_record, is_opened,
}
use agents_can_communicate.Core.FinishRetry.Facts.{IsLogged}
use agents_can_communicate.Core.FinishRetry.Reading.{
  AreReleases, IsFinishLog, ids_of, append_assoc, read_back,
}
use agents_can_communicate.Core.Conversations.Recording.{find_message_retry}
use agents_can_communicate.Core.Conversations.Retries.{IsPlain, found_key}
use agents_can_communicate.Core.Conversations.Finish.{
  FinishInput, Finished, finish_message, claims_of, closed_session, finish_unless,
  finish_in_transaction, finish_session,
}
use agents_can_communicate.Core.Conversations.Finish.Ends.{after_transaction-anew}
use agents_can_communicate.Core.Conversations.Finish.Logged.{
  Appends, check_generation-eq, next_id-Quiet, record_message-Records, give_all-Releases,
  close_session-Appends,
}

-- The appended events, one part after the other, are the log of a finish.
joined :
    (session : Session) (message_id thread_id : Text) (recipients : List Text) (cs : List Claim)
    (before s t u : List Event) (es : List Event)
    → (a : Appends before session.session_id
        (Happening.message_recorded message_id thread_id recipients)
        s)
    → t ≡ s ++ es
    → AreReleases session.session_id es cs
    → (b : Appends t session.session_id
        (Happening.session_finished message_id session.generation (ids_of cs))
        u)
    → (log : List Event) × (u ≡ before ++ log) × IsFinishLog session message_id cs log
joined session message_id thread_id recipients cs before s t u es a grown given b = (
  a.event ∷ (es ++ b.event ∷ []),
  b.grown
      ∙ rw (grown, a.grown)
          (ap (λ x. x ++ b.event ∷ []) (append_assoc before (a.event ∷ []) es)
            ∙ append_assoc before (a.event ∷ es) (b.event ∷ [])),
  record {
    recorded = a.event;
    releases = es;
    ending = b.event;
    thread_id = thread_id;
    recipients = recipients;
    whole = refl;
    recorded_by = a.acted;
    records_it = a.said;
    released = given;
    closed_by = b.acted;
    closes_it = b.said;
  },
)

finish-IsPlain : (input : FinishInput) → IsPlain (finish_message input)
unfolding finish_message
finish-IsPlain input = (refl, refl, refl)

-- The same log, of another record of the session.
IsFinishLog-same :
    (session other : Session) (message_id : Text) (cs : List Claim) (log : List Event)
    → other.session_id ≡ session.session_id
    → other.generation ≡ session.generation
    → IsFinishLog session message_id cs log
    → IsFinishLog other message_id cs log
IsFinishLog-same session other message_id cs log same_id same_generation h = record {
  recorded = h.recorded;
  releases = h.releases;
  ending = h.ending;
  thread_id = h.thread_id;
  recipients = h.recipients;
  whole = h.whole;
  recorded_by = rw same_id h.recorded_by;
  records_it = h.records_it;
  released = rw same_id h.released;
  closed_by = rw same_id h.closed_by;
  closes_it = rw same_generation h.closes_it;
}

module _ (receipt_id : Text → Text → Text) (fresh : Text → ℕ → Text) where
  -- What a finish that is no retry leaves in the log, and what it returns.
  abbrev Logged : Session → Session → (now : ℕ) → Tx → Finished → Tx → Type 0
  Logged session current now tx done s =
      done.retry ≡ false
      → (done.session ≡ closed_session current now)
        × (done.released ≡ map project_released_claim (claims_of session.session_id tx))
        × ((log : List Event) × (s.events ≡ tx.events ++ log)
            × IsFinishLog session done.message.message_id (claims_of session.session_id tx) log)

  finish_unless-Logged :
      (session current : Session) (input : FinishInput) (now : ℕ) (existing : Option Message)
      (to : List Text) (tx : Tx)
      → find_message_retry tx session (record (finish_message input) { to_participant_ids = to })
        ≡ ok existing
      → Post
          (finish_unless receipt_id fresh session current input now existing)
          tx
          (Logged session current now tx)
  unfolding finish_unless
  finish_unless-Logged session current input now (some m) to tx h =
      Post-bind-lift _ _ tx λ _ _. Post-pure _ tx (λ e. cc)
  finish_unless-Logged session current input now none to tx h =
      let raw = finish_message input in
      let free = found_key tx session (record raw { to_participant_ids = to }) h in
      let cs = claims_of session.session_id tx in
      Post-bind-lift _ _ tx λ _ _. Post-bind-gets _ _ tx (
        Post-bind _ _ tx (next_id-Quiet receipt_id fresh _ tx) λ id s (events, messages).
          Post-bind _ _ s
            (record_message-Records receipt_id fresh session raw now id s (finish-IsPlain input)
              (rw messages free))
            λ recorded t (thread, recipients, a).
              Post-bind _ _ t (give_all-Releases receipt_id fresh session now cs t)
                λ _ u (es, grown, given).
                  Post-bind _ _ u
                    (close_session-Appends receipt_id fresh session current now recorded.message cs
                      u)
                    λ closed v (same, b). Post-pure _ v (λ _. (
                      same,
                      refl,
                      joined session recorded.message.message_id thread recipients cs tx.events
                          t.events u.events v.events es (rw events at a) grown given b,
                    )))

  finish_in_transaction-Logged :
      (session : Session) (input : FinishInput) (now : ℕ) (tx : Tx)
      → Post (finish_in_transaction receipt_id fresh session input now) tx (λ done s.
        (current : Session) × (lookup session.session_id tx.sessions ≡ some current)
        × (current.generation ≡ session.generation)
        × Logged session current now tx done s)
  unfolding finish_in_transaction
  finish_in_transaction-Logged session input now tx = Post-bind-gets _ _ tx (
      Post-bind-lift _ _ tx λ current there. Post-bind-gets _ _ tx (
        Post-bind-lift _ _ tx λ to _. Post-bind-gets _ _ tx (
          Post-bind-lift _ _ tx λ existing h.
            let (found, same) = check_generation-eq _ session current there in
            Post-weaken _ tx (finish_unless-Logged session current input now existing to tx h)
              λ done s i. (current, found, same, i))))

  -- What a session finished with, of the record that the transaction read.
  abbrev Left : Session → (now : ℕ) → Tx → Finished → Tx → Type 0
  Left session now tx done s =
      (current : Session) × (lookup session.session_id tx.sessions ≡ some current)
      × (current.generation ≡ session.generation)
      × (done.session ≡ closed_session current now)
      × (done.released ≡ map project_released_claim (claims_of session.session_id tx))
      × ((log : List Event) × (s.events ≡ tx.events ++ log)
          × IsFinishLog session done.message.message_id (claims_of session.session_id tx) log)

  finish_session-Left :
      (session : Session) (input : FinishInput) (now : ℕ) (tx : Tx)
      → Post
          (finish_session receipt_id fresh session input now)
          tx
          (λ done s. done.retry ≡ false → Left session now tx done s)
  unfolding finish_session
  finish_session-Left session input now tx =
      Post-bind _ _ tx (finish_in_transaction-Logged session input now tx)
        λ outcome s (current, found, same, i).
          after_transaction-anew receipt_id fresh (Left session now tx) outcome.retry outcome s refl
            (λ anew. let (shut, given, left) = i anew in (current, found, same, shut, given, left))

  read_finish :
      (session current : Session) (now : ℕ) (message_id : Text) (cs : List Claim)
      (before log later : List Event) (claims : List Claim)
      → current.session_id ≡ session.session_id
      → current.generation ≡ session.generation
      → IsFinishLog session message_id cs log
      → any (is_record message_id session.session_id) before ≡ false
      → distinct (ids_of cs) ≡ true
      → All (IsLogged before) cs
      → any (is_opened session.session_id) later ≡ false
      → any (λ (c : Claim). c.owner_session_id == session.session_id) claims ≡ false
      → reconstruct_finish_retry
          (closed_session current now)
          message_id
          (before ++ (log ++ later))
          claims
        ≡ ok (map project_released_claim cs)
  unfolding closed_session is_open
  read_finish session current now message_id cs before log later claims same_id same_generation h
        new apart logged stays free =
      read_back (closed_session current now) message_id cs before log later claims
        (IsFinishLog-same session (closed_session current now) message_id cs log same_id
          same_generation h)
        refl (rw same_id new) apart logged (rw same_id stays) (rw same_id free)

  -- After a finish that is no retry, `reconstructFinishRetry` reads from the log, with whatever
  -- other events came later, exactly the claims that the finish returned, in order. This holds
  -- where the session was stored under its own id, the id of the message is not one that the
  -- session had recorded, its claims have different ids, the last event that said what each of
  -- them is said what it was at the finish, and since then the session has not opened again and
  -- owns no claim.
  pub finish_session_roundtrip :
      (session : Session) (input : FinishInput) (now : ℕ) (tx tx' : Tx) (done : Finished)
      (later : List Event) (claims : List Claim)
      → finish_session receipt_id fresh session input now tx ≡ ok (done, tx')
      → done.retry ≡ false
      → ((s : Session)
          → lookup session.session_id tx.sessions ≡ some s
          → s.session_id ≡ session.session_id)
      → any (is_record done.message.message_id session.session_id) tx.events ≡ false
      → distinct (ids_of (claims_of session.session_id tx)) ≡ true
      → All (IsLogged tx.events) (claims_of session.session_id tx)
      → any (is_opened session.session_id) later ≡ false
      → any (λ (c : Claim). c.owner_session_id == session.session_id) claims ≡ false
      → reconstruct_finish_retry done.session done.message.message_id (tx'.events ++ later) claims
        ≡ ok done.released
  finish_session_roundtrip session input now tx tx' done later claims h anew keyed new apart logged
        stays free =
      let (current, found, same, shut, given, (log, grown, wrote)) =
        (finish_session-Left session input now tx).holds done tx' h anew in
      rw (shut, given, grown, append_assoc tx.events log later)
        (read_finish session current now done.message.message_id (claims_of session.session_id tx)
          tx.events log later claims (keyed current found) same wrote new apart logged stays free)
