-- ===== src/Core/Opening.antt =====
-- packages/core/src/session-opening.mjs: a session opens in a durable workspace, in one transaction,
-- or, before the workspace is durable, in the ephemeral area under the lock of its id. The ids that
-- `createId` and `ids.next` hand out, and what stood there before, are arguments.
pub mod Replacing
mod Examples
use agents_can_communicate.Base.{
  ℕ, ◌≡◌, Bool, true, false, not, ◌&&◌, ◌||◌, Option, none, some, List, [], ◌∷◌, Text, ◌==◌,
  if◌then◌else◌, ltb, is_some, is_none, Result, ok, err, Exit, require,
}
use agents_can_communicate.Base.Results
use agents_can_communicate.Base.Table.{Table, lookup, insert}
use agents_can_communicate.Protocol.Fields.{is_portable_id, is_text}
use agents_can_communicate.Core.Records.{
  Session, SessionState, Enforcement, Lifecycle, Participant, ParticipantKind, Happening, Tx,
  is_open,
}
use agents_can_communicate.Core.Sessions.{or_keep}
use agents_can_communicate.Core.Transaction.{M, pure, lift, gets, modify, ◌>>=◌, ◌>>◌, append}

pub record OpenInput : Type 0 where
  pub participant_id : Text
  pub display_name : Option Text
  pub participant_kind : Option ParticipantKind
  pub generation : Option Text
  pub harness : Text
  pub parent_session_id : Option Text
  pub checkout_root : Option Text
  pub branch : Option Text
  pub pid : Option ℕ
  pub enforcement : Option Enforcement
  pub lifecycle : Option Lifecycle
  pub heartbeat_cadence_ms : ℕ

is_portable_option : Option Text → Bool
is_portable_option none = true
is_portable_option (some id) = is_portable_id id

is_line_option : Option Text → Bool
is_line_option none = true
is_line_option (some line) = is_text 500 false line

is_positive_option : Option ℕ → Bool
is_positive_option none = true
is_positive_option (some n) = ltb 0 n

-- `validateRecord("session", …)`
unfoldable pub is_valid_session : Session → Bool
unfolding is_portable_option is_line_option is_positive_option
is_valid_session s =
    is_portable_id s.session_id
    && is_portable_id s.participant_id
    && is_portable_id s.workspace_id
    && is_portable_id s.generation
    && is_text 500 false s.harness
    && is_portable_option s.parent_session_id
    && is_line_option s.checkout_root
    && is_line_option s.branch
    && is_positive_option s.pid
    && ltb 0 s.heartbeat_cadence_ms

-- `validateRecord("participant", …)`
unfoldable pub is_valid_participant : Participant → Bool
is_valid_participant p =
    is_portable_id p.participant_id
    && is_portable_id p.workspace_id
    && is_text 500 false p.display_name

-- `sessionRecord`: what is not declared is the weaker reading.
unfoldable pub session_record :
    OpenInput → (workspace_id session_id generation : Text) → (now : ℕ) → Session
unfolding or_keep
session_record input workspace_id session_id generation now = record {
  session_id = session_id;
  participant_id = input.participant_id;
  workspace_id = workspace_id;
  generation = generation;
  harness = input.harness;
  state = SessionState.opened;
  parent_session_id = input.parent_session_id;
  checkout_root = input.checkout_root;
  branch = input.branch;
  pid = input.pid;
  enforcement = or_keep input.enforcement Enforcement.advisory;
  lifecycle = or_keep input.lifecycle Lifecycle.manual;
  heartbeat_cadence_ms = input.heartbeat_cadence_ms;
  started_at = now;
  heartbeat_at = now;
  noticed_left_messages = none;
  end_reason = none;
}

-- `participantRecord`
unfoldable pub participant_record : OpenInput → (workspace_id : Text) → (now : ℕ) → Participant
unfolding or_keep
participant_record input workspace_id now = record {
  participant_id = input.participant_id;
  workspace_id = workspace_id;
  display_name = or_keep input.display_name input.participant_id;
  kind = or_keep input.participant_kind ParticipantKind.agent;
  created_at = now;
}

unfoldable pub generation_of : Option Session → Option Text
generation_of none = none
generation_of (some s) = some s.generation

-- A participant that is there already keeps its record.
unfoldable pub introduce_at :
    Participant → Table Participant → Option Participant → Table Participant
unfolding insert
introduce_at p t none = insert p.participant_id p t
introduce_at p t (some q) = t

unfoldable pub introduce : Participant → Table Participant → Table Participant
unfolding introduce_at lookup
introduce p t = introduce_at p t (lookup p.participant_id t)

-- `pid_is_alive` is the probe of a process, a port; `probe` is the caller's own, where it has one.
module _ (pid_is_alive : ℕ → Bool) (probe : Option (Session → Bool)) where
  runs : Option ℕ → Bool
  runs none = true
  runs (some pid) = pid_is_alive pid

  unfoldable pub answers : Session → Bool
  unfolding runs
  answers s = elim probe [ some asked ↦ asked s | none ↦ runs s.pid ]

  -- `assertReplaceable`: only a process that is known to be gone gives its session up.
  unfoldable pub assert_replaceable : Session → Result (Unit {0})
  unfolding answers is_open
  assert_replaceable s = if is_open s.state then require (not (answers s)) Exit.conflict else ok tt

  -- `assertAvailable`: a reserved generation never replaces a session.
  unfoldable pub assert_available : (reserved : Option Text) → Option Session → Result (Unit {0})
  unfolding assert_replaceable
  assert_available reserved none = ok tt
  assert_available reserved (some s) =
      if is_some reserved then err Exit.conflict else assert_replaceable s

  -- The checks before anything is written: the records to write, of what was found.
  unfoldable pub prepared_records :
      (existing : Option Session)
      → OpenInput
      → (store_workspace : Option Text) → (workspace_id session_id fresh_generation : Text)
      → (now : ℕ) → Result (Session × Participant)
  unfolding assert_available session_record participant_record is_valid_session is_valid_participant
      or_keep
  prepared_records existing input store_workspace workspace_id session_id fresh_generation now =
      let session =
        session_record input workspace_id session_id (or_keep input.generation fresh_generation)
          now in
      let participant = participant_record input workspace_id now in
      Results.◌>>◌ (require (is_portable_id workspace_id) Exit.invalid) (
        Results.◌>>◌
          (require (elim store_workspace [ none ↦ true | some w ↦ workspace_id == w ])
            Exit.conflict)
          (Results.◌>>◌ (require (is_portable_id input.participant_id) Exit.invalid) (
            Results.◌>>◌ (assert_available input.generation existing) (
              Results.◌>>◌ (require (is_valid_session session) Exit.invalid) (
                Results.◌>>◌ (require (is_valid_participant participant) Exit.invalid)
                  (ok (session, participant)))))))

  -- `openDurable`
  unfoldable pub open_durable :
      (fresh : Text → ℕ → Text) → (reserved : Option Text) → Session → Participant → M Session
  unfolding assert_available introduce generation_of lookup insert
  open_durable fresh reserved session participant = do
    current ← gets (λ tx. lookup session.session_id tx.sessions)
    checked ← lift (assert_available reserved current)
    modify (λ tx. record tx {
      participants = introduce participant tx.participants;
      sessions = insert session.session_id session tx.sessions;
    })
    append fresh session.workspace_id session.session_id session.started_at
        (Happening.session_opened (generation_of current))
    pure session

  -- The update of the ephemeral session, under its lock: `none` leaves it to the durable
  -- transaction, once the workspace is materialised.
  unfoldable pub open_ephemeral :
      (is_materialised : Bool)
      → (reserved : Option Text) → Session
      → (current : Option Session) → Result (Option Session)
  unfolding assert_available
  open_ephemeral true reserved session current = ok none
  open_ephemeral false reserved session current =
      Results.◌>>◌ (assert_available reserved current) (ok (some session))
