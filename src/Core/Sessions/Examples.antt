-- ===== src/Core/Sessions/Examples.antt =====
-- A session looked at over an hour, and what it remembers.
use agents_can_communicate.Base.{
  ◌≤◌, ◌≡◌, ◌≢◌, ◌↔◌, ◌+◌, ◌*◌, refl, true, none, some, [], ◌∷◌, arith, codes, includes, length,
  leb, if◌then◌else◌, Text,
}
use agents_can_communicate.Core.Records.{Session, SessionState, Enforcement, Lifecycle}
use agents_can_communicate.Core.Sessions.{
  classify_session_presence, noticed_after, noticed_left_limit,
}
use agents_can_communicate.Core.Sessions.Fading.{rank, presence_fades, presence_decides, IsPresent}
use agents_can_communicate.Core.Sessions.Notices.{noticed_after-bounds}

abbrev ana : Session
ana = record {
  session_id = codes "s1";
  participant_id = codes "ana";
  workspace_id = codes "w";
  generation = codes "g";
  harness = codes "codex";
  state = SessionState.opened;
  parent_session_id = none;
  checkout_root = none;
  branch = none;
  pid = none;
  enforcement = Enforcement.guarded;
  lifecycle = Lifecycle.managed;
  heartbeat_cadence_ms = 60000;
  started_at = 0;
  heartbeat_at = 1000;
  noticed_left_messages = none;
  end_reason = none;
}

-- Within three minutes online, then stale, and offline after half an hour.
faded :
    (rank (classify_session_presence (λ pid. true) ana 2000) ≡ 2)
    × (rank (classify_session_presence (λ pid. true) ana 200000) ≡ 1)
    × (rank (classify_session_presence (λ pid. true) ana 2000000) ≡ 0)
unfolding rank classify_session_presence
faded = (refl, refl, refl)

presence_fades_example :
    rank (classify_session_presence (λ pid. true) ana 2000000)
    ≤ rank (classify_session_presence (λ pid. true) ana 2000)
presence_fades_example = presence_fades (λ pid. true) ana 2000 2000000 (omega arith)

presence_decides_example :
    ((rank (classify_session_presence (λ pid. true) ana 200000) ≢ 0)
      ↔ IsPresent (λ pid. true) ana 200000)
    × (IsPresent (λ pid. true) ana 200000
        → rank (classify_session_presence (λ pid. true) ana 200000)
          ≡ (if leb 200000 (ana.heartbeat_at + ana.heartbeat_cadence_ms * 3) then 2 else 1))
presence_decides_example = presence_decides (λ pid. true) ana 200000

noticed_after-bounds_example :
    (length (noticed_after (some (codes "m1" ∷ [])) (codes "m2" ∷ [])) ≤ noticed_left_limit)
    × (length (codes "m2" ∷ []) ≤ noticed_left_limit
        → (a : Text) → includes a (codes "m2" ∷ []) ≡ true
        → includes a (noticed_after (some (codes "m1" ∷ [])) (codes "m2" ∷ [])) ≡ true)
noticed_after-bounds_example = noticed_after-bounds (some (codes "m1" ∷ [])) (codes "m2" ∷ [])
