-- ===== src/Core/Opening/Examples.antt =====
-- Ana's process is gone, and Ana opens the same session again.
use agents_can_communicate.Base.{
  ℕ, ◌≡◌, refl, Bool, true, false, none, some, [], ◌∷◌, Text, codes, ◌==◌, ok, err, Exit,
}
use agents_can_communicate.Base.Table.{lookup, insert}
use agents_can_communicate.Core.Records.{Session, Participant, Happening, Tx, is_open}
use agents_can_communicate.Core.Sessions.{or_keep}
use agents_can_communicate.Core.Transaction.{pure, lift, gets, modify, ◌>>=◌, append}
use agents_can_communicate.Core.Opening.{
  OpenInput, session_record, participant_record, open_durable, assert_available, assert_replaceable,
  answers, introduce, introduce_at, generation_of,
}
use agents_can_communicate.Core.Opening.Replacing.{GivesWay, Opened, open_durable-Opened}

abbrev input : OpenInput
input = record {
  participant_id = codes "ana";
  display_name = none;
  participant_kind = none;
  generation = none;
  harness = codes "codex";
  parent_session_id = none;
  checkout_root = none;
  branch = none;
  pid = some 7;
  enforcement = none;
  lifecycle = none;
  heartbeat_cadence_ms = 60000;
}

abbrev session : Text → ℕ → Session
session generation now = session_record input (codes "w") (codes "s1") generation now

abbrev participant : ℕ → Participant
participant now = participant_record input (codes "w") now

abbrev before : Tx
before = record {
  participants = (codes "ana", participant 1000) ∷ [];
  sessions = (codes "s1", session (codes "g1") 1000) ∷ [];
  claims = [];
  messages = [];
  receipts = [];
  intents = [];
  events = [];
  next_id = 0;
}

abbrev nobody : ℕ → Bool
nobody pid = false

abbrev fresh : Text → ℕ → Text
fresh kind n = kind

abbrev later : Tx
later = record before {
  sessions = (codes "s1", session (codes "g2") 9000) ∷ [];
  events =
      record {
        event_id = codes "event";
        workspace_id = codes "w";
        actor_session_id = codes "s1";
        occurred_at = 9000;
        happening = Happening.session_opened (some (codes "g1"));
      }
      ∷ [];
  next_id = 1;
}

replaced :
    open_durable nobody none fresh none (session (codes "g2") 9000) (participant 9000) before
    ≡ ok (session (codes "g2") 9000, later)
unfolding open_durable assert_available assert_replaceable answers introduce introduce_at
    generation_of is_open lookup insert append pure lift gets modify ◌>>=◌ ◌==◌ session_record
    participant_record or_keep
replaced = refl

-- A process that answers keeps its session.
kept :
    open_durable (λ pid. true) none fresh none (session (codes "g2") 9000) (participant 9000) before
    ≡ err Exit.conflict
unfolding open_durable assert_available assert_replaceable answers is_open lookup pure lift gets
    modify ◌>>=◌ ◌==◌ session_record participant_record or_keep
kept = refl

open_durable-Opened_example :
    GivesWay nobody none none (lookup (codes "s1") before.sessions)
    × (session (codes "g2") 9000 ≡ session (codes "g2") 9000)
    × Opened (session (codes "g2") 9000) (participant 9000) before later
unfolding session_record
open_durable-Opened_example =
    open_durable-Opened nobody none fresh none (session (codes "g2") 9000) (participant 9000) before
      (session (codes "g2") 9000) later replaced
