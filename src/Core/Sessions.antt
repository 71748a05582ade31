-- ===== src/Core/Sessions.antt =====
-- packages/core/src/sessions.mjs: presence, and the writes to the record of a session that is
-- there. `workspace` is `workspaceId ?? store.workspaceId`. A transaction here is the durable one;
-- the ephemeral area applies the same function to the record that it holds.
pub mod Fading
pub mod Notices
mod Examples
use agents_can_communicate.Base.{
  ℕ, ◌+◌, ◌-◌, ◌*◌, zero, suc, ◌≤◌, ◌≡◌, Bool, true, false, not, ◌&&◌, ◌||◌, Option, none, some,
  List, [], ◌∷◌, ◌++◌, arith, Text, codes, ◌==◌, if◌then◌else◌, ltb, leb, every, any, length,
  includes, filter, is_empty, Result, ok, err, Exit, require,
}
use agents_can_communicate.Base.Results
use agents_can_communicate.Base.Table.{lookup, insert}
use agents_can_communicate.Core.Records.{
  Session, SessionState, Enforcement, Lifecycle, Happening, Tx, is_open,
}
use agents_can_communicate.Core.Transaction.{M, pure, lift, gets, modify, ◌>>=◌, ◌>>◌, append}

pub data Presence : Type 0 where
  online stale offline : Presence

-- UNKNOWN_EXPIRY_MS
abbrev pub unknown_expiry_ms : ℕ
unknown_expiry_ms = 30 * 60000

-- HARD_EXPIRY_MS
abbrev pub hard_expiry_ms : ℕ
hard_expiry_ms = 24 * 60 * 60000

-- The age is more than this: `age` may be negative, so the heartbeat goes to the other side.
unfoldable pub older_than : ℕ → Session → (now : ℕ) → Bool
older_than ms s now = ltb (s.heartbeat_at + ms) now

-- `ageBand`
unfoldable pub age_band : Session → (now : ℕ) → Presence
unfolding older_than
age_band s now =
    if older_than (s.heartbeat_cadence_ms * 3) s now then Presence.stale else Presence.online

-- `pid_is_alive` is the probe of a process, a port.
module _ (pid_is_alive : ℕ → Bool) where
  by_process : Option ℕ → Session → (now : ℕ) → Presence
  unfolding age_band older_than
  by_process none s now =
      if older_than unknown_expiry_ms s now then Presence.offline else age_band s now
  by_process (some pid) s now = if pid_is_alive pid then age_band s now else Presence.offline

  -- `classifySessionPresence`
  unfoldable pub classify_session_presence : Session → (now : ℕ) → Presence
  unfolding by_process older_than is_open
  classify_session_presence s now =
      if not (is_open s.state)
      then Presence.offline
      else if older_than hard_expiry_ms s now
      then Presence.offline
      else by_process s.pid s now

same_workspace : Option Text → Session → Bool
same_workspace none s = true
same_workspace (some w) s = s.workspace_id == w

-- `assertGeneration`
unfoldable pub assert_generation : Session → (generation : Text) → Option Text → Result (Unit {0})
unfolding same_workspace
assert_generation s generation workspace =
    if not (same_workspace workspace s)
    then err Exit.conflict
    else require (s.generation == generation) Exit.conflict

-- The guards of `beat` and `note`.
unfoldable pub assert_beatable : Session → (generation : Text) → Option Text → Result (Unit {0})
unfolding assert_generation is_open
assert_beatable s generation workspace =
    Results.◌>>◌ (assert_generation s generation workspace)
      (require (is_open s.state) Exit.conflict)

-- `beat`
unfoldable pub beat : Session → (generation : Text) → Option Text → (now : ℕ) → Result Session
unfolding assert_beatable
beat s generation workspace now =
    Results.◌>>◌ (assert_beatable s generation workspace) (ok (record s { heartbeat_at = now }))

-- NOTICED_LEFT_LIMIT
abbrev pub noticed_left_limit : ℕ
noticed_left_limit = 64

unfoldable pub drop : ℕ → List Text → List Text
drop zero xs = xs
drop (suc n) [] = []
drop (suc n) (x ∷ xs) = drop n xs

-- `slice(-n)`
unfoldable pub keep_last : ℕ → List Text → List Text
unfolding drop
keep_last n xs = drop (length xs - n) xs

noticed_before : Option (List Text) → List Text
noticed_before none = []
noticed_before (some ids) = ids

-- The ids that are remembered: the newest come last, and the oldest are forgotten.
unfoldable pub noticed_after : Option (List Text) → (message_ids : List Text) → List Text
unfolding noticed_before keep_last filter includes
noticed_after prior message_ids =
    keep_last noticed_left_limit
      (filter (λ (id : Text). not (includes id message_ids)) (noticed_before prior) ++ message_ids)

-- `note`
unfoldable pub note :
    Session → (generation : Text) → Option Text → (message_ids : List Text) → Result Session
unfolding assert_beatable noticed_after
note s generation workspace message_ids = Results.◌>>◌ (assert_beatable s generation workspace) (
    ok (record s {
      noticed_left_messages = some (noticed_after s.noticed_left_messages message_ids);
    }))

unfoldable pub or_keep {ℓ} : {A : Type ℓ} → Option A → A → A
or_keep none kept = kept
or_keep (some a) kept = a

or_keep_option {ℓ} : {A : Type ℓ} → Option A → Option A → Option A
or_keep_option none kept = kept
or_keep_option (some a) kept = some a

-- What a client says of itself when it resumes.
pub record Metadata : Type 0 where
  pub pid : Option ℕ
  pub checkout_root : Option Text
  pub branch : Option Text
  pub enforcement : Option Enforcement
  pub lifecycle : Option Lifecycle
  pub heartbeat_cadence_ms : Option ℕ

-- `resume`, of a record that is there.
unfoldable pub resume :
    Session → (generation : Text) → Option Text → Metadata → (now : ℕ) → Option Session
unfolding same_workspace or_keep or_keep_option is_open
resume s generation workspace metadata now =
    if not (is_open s.state) || not (s.generation == generation) || not (same_workspace workspace s)
    then none
    else some (record s {
      pid = metadata.pid;
      checkout_root = or_keep_option metadata.checkout_root s.checkout_root;
      branch = or_keep_option metadata.branch s.branch;
      enforcement = or_keep metadata.enforcement s.enforcement;
      lifecycle = or_keep metadata.lifecycle s.lifecycle;
      heartbeat_cadence_ms = or_keep metadata.heartbeat_cadence_ms s.heartbeat_cadence_ms;
      heartbeat_at = now;
    })

-- `close`; the reason is one that END_REASON accepts, or none.
unfoldable pub close :
    Session
    → (generation : Text) → Option Text
    → (reason : Option Text) → (now : ℕ) → Result Session
unfolding assert_generation or_keep_option
close s generation workspace reason now = Results.◌>>◌ (assert_generation s generation workspace) (
    ok (record s {
      state = SessionState.closed;
      heartbeat_at = now;
      end_reason = or_keep_option reason s.end_reason;
    }))
