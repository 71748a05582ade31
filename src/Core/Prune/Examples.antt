-- ===== src/Core/Prune/Examples.antt =====
-- Ana's process is gone: what a prune reclaims, and a pass that stops on the way.
use agents_can_communicate.Base.{
  ℕ, ◌≡◌, refl, Bool, false, none, some, List, [], ◌∷◌, ◌++◌, codes, ◌==◌, includes, filter, every,
  ok,
}
use agents_can_communicate.Base.Table.{lookup, values}
use agents_can_communicate.Core.Records.{
  Session, SessionState, Enforcement, Lifecycle, ParticipantKind, is_open,
}
use agents_can_communicate.Core.Snapshot.{Snapshot, IntentMode, IntentState}
use agents_can_communicate.Core.Sessions.{classify_session_presence}
use agents_can_communicate.Core.Prune.{
  Kind, Entry, plan_prune, assert_classes, prune_classes, wants_of, below_of, named, in_order,
  entries, ids, pick, when, holding, is_offline, eligible_sessions, doomed_sessions, owning,
  doomed_messages, eligible_participants, surviving, named_in_messages, reclaim_all,
}
use agents_can_communicate.Core.Prune.References.{KeepsReferences, plan_KeepsReferences}

abbrev ana : Session
ana = record {
  session_id = codes "s1";
  participant_id = codes "ana";
  workspace_id = codes "w";
  generation = codes "g";
  harness = codes "codex";
  state = SessionState.opened;
  parent_session_id = none;
  checkout_root = none;
  branch = none;
  pid = some 7;
  enforcement = Enforcement.guarded;
  lifecycle = Lifecycle.managed;
  heartbeat_cadence_ms = 60000;
  started_at = 0;
  heartbeat_at = 1000;
  noticed_left_messages = none;
  end_reason = none;
}

abbrev state : Snapshot
state = record {
  participants =
      (
        codes "ana",
        record {
          participant_id = codes "ana";
          workspace_id = codes "w";
          display_name = codes "ana";
          kind = ParticipantKind.agent;
          created_at = 0;
        },
      )
      ∷ [];
  sessions = (codes "s1", ana) ∷ [];
  intents =
      (
        codes "s1",
        record {
          session_id = codes "s1";
          workspace_id = codes "w";
          summary = codes "ports";
          mode = IntentMode.edit;
          resource_hints = [];
          state = IntentState.active;
          updated_at = 0;
        },
      )
      ∷ [];
  claims = [];
  messages = [];
  receipts = [];
}

abbrev nobody : ℕ → Bool
nobody pid = false

abbrev first : List Entry
first =
    record { kind = Kind.intent; id = codes "s1" }
    ∷ record { kind = Kind.session; id = codes "s1" }
    ∷ []

abbrev last : List Entry
last = record { kind = Kind.participant; id = codes "ana" } ∷ []

planned : plan_prune nobody prune_classes state [] none 2000 ≡ ok (first ++ last)
unfolding plan_prune assert_classes prune_classes wants_of below_of named in_order entries ids pick
    when holding is_offline eligible_sessions doomed_sessions owning doomed_messages
    eligible_participants surviving named_in_messages classify_session_presence is_open includes
    filter every values ◌==◌
planned = refl

plan_KeepsReferences_example : KeepsReferences 2000 state (reclaim_all state first)
plan_KeepsReferences_example =
    plan_KeepsReferences nobody prune_classes state [] none 2000 first last
      (λ k m h. absurd (unfold lookup in cc h)) planned
