-- ===== src/Core/Opening/Replacing.antt =====
-- Only a session whose process is known to be gone is replaced.
use agents_can_communicate.Base.{
  ℕ, ◌≡◌, ◌⊎◌, refl, Bool, false, Option, none, some, arith, Text, ◌==◌, eq_iff, ok,
}
use agents_can_communicate.Base.Table.{Table, lookup, insert, lookup-insert}
use agents_can_communicate.Core.Records.{Session, Participant, Happening, Tx, is_open}
use agents_can_communicate.Core.Transaction.{append}
use agents_can_communicate.Core.Transaction.Posts.{
  Post, Post-bind, Post-bind-lift, Post-bind-gets, Post-bind-modify, Post-pure,
}
use agents_can_communicate.Core.Opening.{
  answers, assert_available, assert_replaceable, introduce, introduce_at, open_durable,
}

-- What stood under the id gives way: nothing, a closed session, or one that does not answer, and
-- none of them to a reserved generation.
abbrev pub GivesWay : (ℕ → Bool) → Option (Session → Bool) → Option Text → Option Session → Type 0
GivesWay pid_is_alive probe reserved none = Unit
GivesWay pid_is_alive probe reserved (some s) =
    (reserved ≡ none) × ((is_open s.state ≡ false) ⊎ (answers pid_is_alive probe s ≡ false))

-- What an opening has done when it returns.
pub record Opened (session : Session) (participant : Participant) (tx t : Tx) : Type 0 where
  pub stored : lookup session.session_id t.sessions ≡ some session
  pub others :
      (k : Text) → session.session_id == k ≡ false → lookup k t.sessions ≡ lookup k tx.sessions
  -- A participant that was there is not renamed, and the session's own one is there.
  pub unnamed :
      (k : Text) (p : Participant)
      → lookup k tx.participants ≡ some p
      → lookup k t.participants ≡ some p
  pub introduced : (p : Participant) × (lookup participant.participant_id t.participants ≡ some p)

module _ (pid_is_alive : ℕ → Bool) (probe : Option (Session → Bool)) where
  assert_available-GivesWay :
      (reserved : Option Text) (o : Option Session) (u : Unit {0})
      → assert_available pid_is_alive probe reserved o ≡ ok u
      → GivesWay pid_is_alive probe reserved o
  unfolding assert_available assert_replaceable
  assert_available-GivesWay reserved none u h = tt
  assert_available-GivesWay (some g) (some s) u h = absurd (cc)
  assert_available-GivesWay none (some s) u h = (refl, ground arith)

  introduce_at-kept :
      (p q : Participant) (k : Text) (t : Table Participant) (o : Option Participant)
      → lookup p.participant_id t ≡ o
      → lookup k t ≡ some q
      → lookup k (introduce_at p t o) ≡ some q
  unfolding introduce_at
  introduce_at-kept p q k t (some r) e h = h
  introduce_at-kept p q k t none e h =
      ground (arith, lookup-insert p.participant_id k p t, eq_iff p.participant_id k, h, e)

  introduce_at-there :
      (p : Participant) (t : Table Participant) (o : Option Participant)
      → lookup p.participant_id t ≡ o
      → (q : Participant) × (lookup p.participant_id (introduce_at p t o) ≡ some q)
  unfolding introduce_at
  introduce_at-there p t (some r) e = (r, e)
  introduce_at-there p t none e = (
    p,
    ground (
      arith,
      lookup-insert p.participant_id p.participant_id p t,
      eq_iff p.participant_id p.participant_id,
    ),
  )

  module _ (fresh : Text → ℕ → Text) (reserved : Option Text) (session : Session)
      (participant : Participant) (tx : Tx) where
    abbrev IsDone : Session → Tx → Type 0
    IsDone s t =
        GivesWay pid_is_alive probe reserved (lookup session.session_id tx.sessions)
        × (s ≡ session)
        × Opened session participant tx t

    -- What the body has put down before it appends the event, whatever else a state holds.
    abbrev IsWritten : Tx → Type 0
    IsWritten t =
        (t.sessions ≡ insert session.session_id session tx.sessions)
        × (t.participants ≡ introduce participant tx.participants)

    IsWritten-Opened : (t : Tx) → IsWritten t → Opened session participant tx t
    unfolding introduce
    IsWritten-Opened t (e, f) = record {
      stored = rw e (
          ground (
            arith,
            lookup-insert session.session_id session.session_id session tx.sessions,
            eq_iff session.session_id session.session_id,
          ));
      others =
          λ k other. rw e (ground (arith, lookup-insert session.session_id k session tx.sessions));
      unnamed = λ k p h. rw f (introduce_at-kept participant p k tx.participants _ refl h);
      introduced = rw f (introduce_at-there participant tx.participants _ refl);
    }

    append-IsWritten :
        (workspace actor : Text) (now : ℕ) (h : Happening) (t : Tx)
        → IsWritten t
        → Post (append fresh workspace actor now h) t (λ _ s. IsWritten s)
    unfolding append
    append-IsWritten workspace actor now h t w = record {
      holds = λ u s e. (ground arith, ground arith);
    }

    open_durable-Post :
        Post (open_durable pid_is_alive probe fresh reserved session participant) tx IsDone
    unfolding open_durable
    open_durable-Post = Post-bind-gets _ _ tx (
        Post-bind-lift _ _ tx (λ u way. Post-bind-modify _ _ tx (
          Post-bind _ _ _ (append-IsWritten _ _ _ _ _ (refl, refl)) (λ _ t w.
            Post-pure session t
              (assert_available-GivesWay reserved _ u way, refl, IsWritten-Opened t w)))))

    -- An opening that returns has stored the session that was prepared. What stood under its id was
    -- nothing, or, where no generation was reserved, a session that was closed or that did not answer.
    -- No other session has changed, no participant that was there has changed, and the participant of
    -- the session is there.
    pub open_durable-Opened :
        (s : Session) (t : Tx)
        → open_durable pid_is_alive probe fresh reserved session participant tx ≡ ok (s, t)
        → GivesWay pid_is_alive probe reserved (lookup session.session_id tx.sessions)
          × (s ≡ session)
          × Opened session participant tx t
    open_durable-Opened s t h = open_durable-Post.holds s t h
