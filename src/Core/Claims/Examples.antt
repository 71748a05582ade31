-- ===== src/Core/Claims/Examples.antt =====
-- A small room: two sessions, the claims that they take and give back, and the theorems at these
-- inputs.
use agents_can_communicate.Base.{
  ℕ, ◌+◌, ◌≡◌, refl, none, some, List, [], ◌∷◌, ◌++◌, arith, Text, codes, Result, ok, err, Exit,
  map, every, any, distinct, includes, filter, find, traverse, ◌==◌, starts_with,
}
use agents_can_communicate.Base.Table.{lookup, insert, remove, values}
use agents_can_communicate.Protocol.Fields.{
  is_portable_id, matches_portable, ends_with_dot, windows_device, is_text, is_resource_uri,
}
use agents_can_communicate.Protocol.Resources.{
  slashes, split_slash, join_slash, take_segment, take_segments, normalise_path, strip_glob,
  split_colon, normalise_file, normalise_resource, assert_matchable_resource,
}
use agents_can_communicate.Core.Overlaps.{split, is_within, covers, overlaps}
use agents_can_communicate.Core.Records.{Session, SessionState, Enforcement, Lifecycle, Claim, Tx}
use agents_can_communicate.Core.Transaction.{◌>>=◌, for_each}
use agents_can_communicate.Core.Claims.{
  ClaimInput, acquire, check_owner, claim_resources, has_conflict, blocks, claim_records,
  claim_record, write_claim, is_valid_claim,
}
use agents_can_communicate.Core.Claims.Release.{
  Selectors, remove_claims, remove_claim, select_release_claims, may_remove, is_authority,
  or_ephemeral,
}
use agents_can_communicate.Core.Claims.History.{Moment, Commit, Commits, Excludes, claims_exclude}
use agents_can_communicate.Core.Claims.Removal.{Released, remove_claims_exact}

abbrev fresh : Text → ℕ → Text
fresh kind n = kind ++ (b'0' + n) ∷ []

abbrev session : Text → Text → Session
session id participant = record {
  session_id = id;
  participant_id = participant;
  workspace_id = codes "w";
  generation = codes "g";
  harness = codes "codex";
  state = SessionState.opened;
  parent_session_id = none;
  checkout_root = none;
  branch = none;
  pid = none;
  enforcement = Enforcement.guarded;
  lifecycle = Lifecycle.managed;
  heartbeat_cadence_ms = 60000;
  started_at = 0;
  heartbeat_at = 0;
  noticed_left_messages = none;
  end_reason = none;
}

abbrev ana : Session
ana = session (codes "s1") (codes "ana")

abbrev ben : Session
ben = session (codes "s2") (codes "ben")

abbrev room : Tx
room = record {
  participants = [];
  sessions = (codes "s1", ana) ∷ (codes "s2", ben) ∷ [];
  claims = [];
  messages = [];
  receipts = [];
  intents = [];
  events = [];
  next_id = 0;
}

abbrev request : Session → ClaimInput
request s = record {
  session_id = s.session_id;
  generation = s.generation;
  mode = none;
  enforcement = none;
  lease_seconds = some 60;
  reason = codes "work";
}

-- What a body returned, or the given value if it threw.
abbrev returned : {A : Type 0} → Result (A × Tx) → A × Tx → A × Tx
returned (ok r) d = r
returned (err e) d = d

-- Ana claims a directory at time 1000, with a spelling that is not the normal one.
abbrev taken : List Claim × Tx
taken =
    returned (acquire fresh (some ana) (request ana) (codes "file:./src/**" ∷ []) 1000 room)
      ([], room)

-- To open this is to open all that an operation on claims computes with.
runs : Tx → Tx
unfolding acquire check_owner claim_resources has_conflict blocks claim_records claim_record
    write_claim is_valid_claim is_portable_id matches_portable ends_with_dot windows_device is_text
    is_resource_uri normalise_resource normalise_file normalise_path slashes split_slash join_slash
    take_segments take_segment strip_glob split_colon assert_matchable_resource overlaps split
    covers is_within remove_claims remove_claim select_release_claims may_remove is_authority
    or_ephemeral for_each ◌>>=◌ lookup insert remove values every any distinct includes filter find
    traverse ◌==◌ starts_with
runs tx = tx

-- The claim is on the directory in its normal spelling.
taken_name : map (λ (c : Claim). c.resource) taken.0 ≡ codes "file:src/**" ∷ []
unfolding runs
taken_name = refl

-- Ben cannot claim a file in that directory, and can claim one in a directory of a longer name.
ben_refused :
    acquire fresh (some ben) (request ben) (codes "file:src/a.mjs" ∷ []) 2000 taken.1
    ≡ err Exit.conflict
unfolding runs
ben_refused = refl

abbrev beside : List Claim × Tx
beside =
    returned (acquire fresh (some ben) (request ben) (codes "file:srcs/a.mjs" ∷ []) 2000 taken.1)
      ([], room)

beside_name : map (λ (c : Claim). c.resource) beside.0 ≡ codes "file:srcs/a.mjs" ∷ []
unfolding runs
beside_name = refl

-- Once Ana's minute is over, Ben can claim it.
abbrev later : List Claim × Tx
later =
    returned (acquire fresh (some ben) (request ben) (codes "file:src/a.mjs" ∷ []) 62000 taken.1)
      ([], room)

later_name : map (λ (c : Claim). c.resource) later.0 ≡ codes "file:src/a.mjs" ∷ []
unfolding runs
later_name = refl

taken_commit :
    acquire fresh (some ana) (request ana) (codes "file:./src/**" ∷ []) 1000 room
    ≡ ok (taken.0, taken.1)
unfolding runs
taken_commit = refl

later_commit :
    acquire fresh (some ben) (request ben) (codes "file:src/a.mjs" ∷ []) 62000 taken.1
    ≡ ok (later.0, later.1)
unfolding runs
later_commit = refl

abbrev at : ℕ → Tx → Moment
at now tx = record { now = now; tx = tx }

first-Commit : Commit fresh (at 0 room) (at 1000 taken.1)
first-Commit =
    Commit.acquires (some ana) (request ana) (codes "file:./src/**" ∷ []) taken.0 (omega arith)
      taken_commit

second-Commit : Commit fresh (at 1000 taken.1) (at 62000 later.1)
second-Commit =
    Commit.acquires (some ben) (request ben) (codes "file:src/a.mjs" ∷ []) later.0 (omega arith)
      later_commit

two-Commits : Commits fresh (at 0 room) (at 62000 later.1)
two-Commits = Commits.then_commit (Commits.then_commit Commits.start first-Commit) second-Commit

claims_exclude_example : Excludes fresh (at 62000 later.1)
claims_exclude_example = claims_exclude fresh (at 0 room) (at 62000 later.1) refl two-Commits

abbrev released : List Claim × Tx
released =
    returned
      (remove_claims fresh (some ana) none (codes "s1") (codes "g") Selectors.all none none 3000
        beside.1)
      ([], room)

released_commit :
    remove_claims fresh
      (some ana)
      none
      (codes "s1")
      (codes "g")
      Selectors.all
      none
      none
      3000
      beside.1
    ≡ ok (released.0, released.1)
unfolding runs
released_commit = refl

-- To remove the claim of another takes `human` or `policy`: no other authority removes Ana's for Ben.
abbrev forced : (authority : Text) → Result (List Claim × Tx)
forced authority =
    remove_claims fresh (some ben) none (codes "s2") (codes "g")
      (Selectors.claim_ids (map (λ (c : Claim). c.claim_id) taken.0)) (some authority) none 3000
      taken.1

workstream_refused : forced (codes "workstream") ≡ err Exit.conflict
unfolding runs
workstream_refused = refl

policy_removes :
    map (λ (c : Claim). c.resource) (returned (forced (codes "policy")) ([], room)).0
    ≡ codes "file:src/**" ∷ []
unfolding runs
policy_removes = refl

-- Ana gives back what she has; Ben's claim stands.
remove_claims_exact_example :
    Released Selectors.all (codes "s1") none beside.1 released.0 released.1
remove_claims_exact_example =
    remove_claims_exact fresh ana none (codes "s1") (codes "g") Selectors.all none none 3000
      beside.1 released.0 released.1 released_commit

still_there :
    map (λ (c : Claim). c.resource) (values released.1.claims) ≡ codes "file:srcs/a.mjs" ∷ []
unfolding runs
still_there = refl
