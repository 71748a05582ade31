-- ===== src/Core/Sessions/Fading.antt =====
-- Presence only fades: without a heartbeat no session comes back.
use agents_can_communicate.Base.{
  ℕ, ◌≤◌, ◌≡◌, ◌↔◌, ◌≢◌, leb, refl, Bool, true, Option, none, some, arith, if◌then◌else◌, ◌+◌, ◌*◌,
}
use agents_can_communicate.Core.Records.{Session, SessionState}
use agents_can_communicate.Core.Sessions.{
  Presence, classify_session_presence, hard_expiry_ms, unknown_expiry_ms,
}

unfoldable pub rank : Presence → ℕ
rank Presence.offline = 0
rank Presence.stale = 1
rank Presence.online = 2

-- While its record and its process stay as they are, a session that is looked at later is no more
-- present than it was.
pub presence_fades :
    (pid_is_alive : ℕ → Bool) (s : Session) (now later : ℕ)
    → now ≤ later
    → rank (classify_session_presence pid_is_alive s later)
      ≤ rank (classify_session_presence pid_is_alive s now)
unfolding classify_session_presence rank
presence_fades pid_is_alive s now later le = ground arith

-- What counts as a sign of life: a process that answers, or a heartbeat of the last half hour where
-- no process is known.
abbrev pub Vouched : (ℕ → Bool) → Option ℕ → (heartbeat_at now : ℕ) → Type 0
Vouched pid_is_alive none heartbeat_at now = now ≤ heartbeat_at + unknown_expiry_ms
Vouched pid_is_alive (some pid) heartbeat_at now = pid_is_alive pid ≡ true

-- What it takes to be reachable at all.
abbrev pub IsPresent : (ℕ → Bool) → Session → (now : ℕ) → Type 0
IsPresent pid_is_alive s now =
    (s.state ≡ SessionState.opened)
    × (now ≤ s.heartbeat_at + hard_expiry_ms)
    × Vouched pid_is_alive s.pid s.heartbeat_at now

module _ (pid_is_alive : ℕ → Bool) (s : Session) (now : ℕ) where
  present_open :
      (rank (classify_session_presence pid_is_alive s now) ≢ 0)
      → (s.state ≡ SessionState.opened) × (now ≤ s.heartbeat_at + hard_expiry_ms)
  unfolding classify_session_presence rank
  present_open h = (ground arith, ground arith)

  present-Vouched :
      (pid : Option ℕ)
      → s.pid ≡ pid
      → (rank (classify_session_presence pid_is_alive s now) ≢ 0)
      → Vouched pid_is_alive pid s.heartbeat_at now
  unfolding classify_session_presence rank
  present-Vouched none e h = ground arith
  present-Vouched (some pid) e h = ground arith

  Vouched-present :
      (pid : Option ℕ)
      → s.pid ≡ pid
      → s.state ≡ SessionState.opened
      → now ≤ s.heartbeat_at + hard_expiry_ms
      → Vouched pid_is_alive pid s.heartbeat_at now
      → rank (classify_session_presence pid_is_alive s now)
        ≡ (if leb now (s.heartbeat_at + s.heartbeat_cadence_ms * 3) then 2 else 1)
  unfolding classify_session_presence rank
  Vouched-present none e opened_now young v = ground arith
  Vouched-present (some pid) e opened_now young v = ground arith

-- A session is reachable exactly where it is open, has beaten within a day, and its process answers
-- or, where no process is known, it has beaten within half an hour; and then it is online exactly
-- where it has beaten within three of its own cadences.
pub presence_decides :
    (pid_is_alive : ℕ → Bool) (s : Session) (now : ℕ)
    → ((rank (classify_session_presence pid_is_alive s now) ≢ 0) ↔ IsPresent pid_is_alive s now)
      × (IsPresent pid_is_alive s now
          → rank (classify_session_presence pid_is_alive s now)
            ≡ (if leb now (s.heartbeat_at + s.heartbeat_cadence_ms * 3) then 2 else 1))
presence_decides pid_is_alive s now = (
  (
    λ h.
        let (opened_now, young) = present_open pid_is_alive s now h in
        (opened_now, young, present-Vouched pid_is_alive s now s.pid refl h),
    λ (opened_now, young, v) zero_rank.
        ground (arith, Vouched-present pid_is_alive s now s.pid refl opened_now young v),
  ),
  λ (opened_now, young, v). Vouched-present pid_is_alive s now s.pid refl opened_now young v,
)
