-- ===== src/Core/Bindings/Examples.antt =====
-- Ana's endpoint in one generation, and calls of another.
use mathlib.Core.List.{Memᴰ}
use agents_can_communicate.Base.{
  ℕ, ◌<◌, ◌≡◌, ◌⊎◌, ◌↔◌, refl, Bool, true, false, none, some, Option, [], ◌∷◌, Text, codes, ◌==◌,
  filter,
}
use agents_can_communicate.Base.Table.{Table, lookup, values}
use agents_can_communicate.Core.Records.{Session, SessionState, Enforcement, Lifecycle, is_open}
use agents_can_communicate.Core.Bindings.{
  Binding, Mode, Policy, list_bindings, current_bindings, in_session_order, is_current,
  participant_is, clear, refresh,
}
use agents_can_communicate.Core.Bindings.Stale.{cleared, stale-Call_changes_nothing, retired_stays}
use agents_can_communicate.Core.Bindings.Listed.{list_bindings_decides}

abbrev ana : Session
ana = record {
  session_id = codes "s1";
  participant_id = codes "ana";
  workspace_id = codes "w";
  generation = codes "g1";
  harness = codes "codex";
  state = SessionState.opened;
  parent_session_id = none;
  checkout_root = none;
  branch = none;
  pid = none;
  enforcement = Enforcement.guarded;
  lifecycle = Lifecycle.managed;
  heartbeat_cadence_ms = 60000;
  started_at = 0;
  heartbeat_at = 1000;
  noticed_left_messages = none;
  end_reason = none;
}

abbrev endpoint : Option ℕ → Binding
endpoint retired_at = record {
  session_id = codes "s1";
  generation = codes "g1";
  adapter_id = codes "codex";
  client_version = codes "1.0";
  available_modes = Mode.live_push ∷ [];
  live_policy = Policy.actionable;
  endpoint = codes "e1";
  lease_until = 9000;
  retired_at = retired_at;
}

abbrev at : Option ℕ → Table Binding
at retired_at = (codes "s1", endpoint retired_at) ∷ []

abbrev locate : Text → Option Session
locate id = some ana

abbrev before : Text → Text → Bool
before x y = false

-- Before its lease ends it is listed, and after it was retired it is not.
listed :
    (list_bindings before locate (codes "ana") 2000 false (at none) ≡ endpoint none ∷ [])
    × (list_bindings before locate (codes "ana") 9000 false (at none) ≡ [])
    × (list_bindings before locate (codes "ana") 2000 true (at (some 5)) ≡ [])
unfolding list_bindings current_bindings in_session_order is_current participant_is is_open filter
    values ◌==◌
listed = (refl, refl, refl)

list_bindings_decides_example :
    Memᴰ (endpoint none) (list_bindings before locate (codes "ana") 2000 false (at none)) ↔ (
      Memᴰ (endpoint none) (values (at none))
      × (is_current (locate (codes "s1")) (codes "g1") ≡ true)
      × ((endpoint none).retired_at ≡ none)
      × (participant_is (locate (codes "s1")) (codes "ana") ≡ true)
      × ((false ≡ true) ⊎ (2000 < 9000)))
list_bindings_decides_example =
    list_bindings_decides before locate (codes "ana") 2000 false (at none) (endpoint none)

at_s1 : (retired_at : Option ℕ) → lookup (codes "s1") (at retired_at) ≡ some (endpoint retired_at)
unfolding lookup ◌==◌
at_s1 retired_at = refl

other_generation : codes "g1" == codes "g2" ≡ false
unfolding ◌==◌
other_generation = refl

stale-Call_changes_nothing_example :
    (clear (some (endpoint none)) (codes "s1") (codes "g2") none 3000 (at none)).0 ≡ at none
stale-Call_changes_nothing_example =
    stale-Call_changes_nothing (codes "s1") (at none)
      (clear (some (endpoint none)) (codes "s1") (codes "g2") none 3000 (at none)).0 (codes "g2")
      (endpoint none) (at_s1 none) other_generation
      (cleared (some (endpoint none)) (codes "g2") none 3000 refl)

retired_stays_example :
    ((clear (some (endpoint none)) (codes "s1") (codes "g1") none 3000 (at (some 5))).0
      ≡ at (some 5))
    × ((refresh (some ana) (codes "s1") (codes "g1") 99000 (at (some 5))).0 ≡ at (some 5))
retired_stays_example =
    retired_stays (codes "s1") (at (some 5)) (endpoint (some 5)) (some (endpoint none)) (some ana)
      (codes "g1") none 3000 99000 (at_s1 (some 5)) refl
