-- ===== src/Core/Intents/Examples.antt =====
-- Ana says what she does, and that she is done.
use agents_can_communicate.Base.{ℕ, ◌≡◌, refl, none, some, [], ◌∷◌, Text, codes, ◌==◌, ok, every}
use agents_can_communicate.Base.Table.{lookup, insert}
use agents_can_communicate.Protocol.Fields.{
  is_portable_id, matches_portable, ends_with_dot, windows_device, is_text,
}
use agents_can_communicate.Core.Records.{
  Session, SessionState, Enforcement, Lifecycle, IntentMode, IntentState, Happening, Tx, is_open,
}
use agents_can_communicate.Core.Sessions.{or_keep}
use agents_can_communicate.Core.Transaction.{pure, lift, gets, modify, ◌>>=◌, append}
use agents_can_communicate.Core.Intents.{
  IntentInput, set_intent, clear_intent, clear_found, require_owner, intent_record, is_valid_intent,
  done,
}
use agents_can_communicate.Core.Intents.Clearing.{Cleared, IsOwner, clear_intent-Cleared}

abbrev ana : Session
ana = record {
  session_id = codes "s1";
  participant_id = codes "ana";
  workspace_id = codes "w";
  generation = codes "g";
  harness = codes "codex";
  state = SessionState.opened;
  parent_session_id = none;
  checkout_root = none;
  branch = none;
  pid = none;
  enforcement = Enforcement.guarded;
  lifecycle = Lifecycle.managed;
  heartbeat_cadence_ms = 60000;
  started_at = 0;
  heartbeat_at = 1000;
  noticed_left_messages = none;
  end_reason = none;
}

abbrev input : IntentInput
input = record {
  session_id = codes "s1";
  generation = codes "g";
  summary = codes "ports";
  mode = IntentMode.edit;
  resource_hints = [];
  state = none;
}

abbrev fresh : Text → ℕ → Text
fresh kind n = kind

abbrev empty : Tx
empty = record {
  participants = [];
  sessions = (codes "s1", ana) ∷ [];
  claims = [];
  messages = [];
  receipts = [];
  intents = [];
  events = [];
  next_id = 0;
}

abbrev published : Tx
published = record empty {
  intents = (codes "s1", intent_record input (codes "w") 1000) ∷ [];
  events =
      record {
        event_id = codes "event";
        workspace_id = codes "w";
        actor_session_id = codes "s1";
        occurred_at = 1000;
        happening = Happening.intent_published IntentMode.edit IntentState.active;
      }
      ∷ [];
  next_id = 1;
}

said :
    set_intent fresh (some ana) input 1000 empty
    ≡ ok (intent_record input (codes "w") 1000, published)
unfolding set_intent require_owner intent_record is_valid_intent or_keep is_open lookup insert
    append pure lift gets modify ◌>>=◌ ◌==◌ is_portable_id matches_portable ends_with_dot
    windows_device is_text every
said = refl

abbrev cleared : Tx
cleared = record published {
  intents = (codes "s1", done 2000 (intent_record input (codes "w") 1000)) ∷ [];
  events =
      record {
        event_id = codes "event";
        workspace_id = codes "w";
        actor_session_id = codes "s1";
        occurred_at = 1000;
        happening = Happening.intent_published IntentMode.edit IntentState.active;
      }
      ∷ record {
        event_id = codes "event";
        workspace_id = codes "w";
        actor_session_id = codes "s1";
        occurred_at = 2000;
        happening = Happening.intent_cleared;
      }
      ∷ [];
  next_id = 2;
}

ended : clear_intent fresh (some ana) (codes "s1") (codes "g") 2000 published ≡ ok (tt, cleared)
unfolding clear_intent clear_found require_owner done is_open lookup insert append pure lift gets
    modify ◌>>=◌ ◌==◌
ended = refl

clear_intent-Cleared_example :
    IsOwner (lookup (codes "s1") published.sessions) (codes "g")
    × Cleared (codes "s1") published cleared
clear_intent-Cleared_example =
    clear_intent-Cleared fresh (codes "s1") 2000 published (some ana) (codes "g") tt cleared ended
