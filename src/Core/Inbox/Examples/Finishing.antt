-- ===== src/Core/Inbox/Examples/Finishing.antt =====
-- Ana finishes while she holds a claim, and sends the finish once more.
use agents_can_communicate.Base.{
  arith, eq_iff, ◌≢◌, ◌≡◌, refl, true, false, some, [], ◌∷◌, ◌++◌, Text, codes, Result, ok, err,
  ◌==◌, map, distinct,
}
use agents_can_communicate.Base.Table.{lookup, remove}
use agents_can_communicate.Protocol.Messages.{HandoffStatus}
use agents_can_communicate.Core.Records.{Session, Enforcement, Tx, Claim, ClaimMode}
use agents_can_communicate.Core.FinishRetry.{project_released_claim}
use agents_can_communicate.Core.Claims.Removal.{LessIds, ids_of}
use agents_can_communicate.Core.Conversations.Finish.{
  FinishInput, Finished, finish_session, finish_in_transaction, after_transaction, finish_unless,
  finish_message, handoff_body, claims_of, check_generation, closed_session, give_back,
  close_session,
}
use agents_can_communicate.Core.Conversations.Finish.Ends.{IsClosed, IsKeyed, finish_session_ends}
use agents_can_communicate.Base.{inl, All, any}
use agents_can_communicate.Core.Records.{Event, Happening}
use agents_can_communicate.Core.FinishRetry.{
  reconstruct_finish_retry, is_record, is_opened, split_at, is_closed, finish_ids, are_releases,
  fact_of, last_fact, claim_projections, released_by,
}
use agents_can_communicate.Core.FinishRetry.Facts.{IsLogged}
use agents_can_communicate.Core.FinishRetry.Reading as FinishLog
use agents_can_communicate.Core.Conversations.Finish.Roundtrip.{finish_session_roundtrip}
use agents_can_communicate.Core.Inbox.Examples.{
  fresh, receipt_id, ana, sent, empty, nothing_recorded, runs,
}

-- Ana holds a claim when she finishes.
abbrev held : Claim
held = record {
  claim_id = codes "c1";
  workspace_id = codes "w";
  owner_session_id = codes "s1";
  resource = codes "file:a.mjs";
  mode = ClaimMode.exclusive;
  enforcement = Enforcement.advisory;
  reason = codes "edit";
  acquired_at = 0;
  expires_at = 60000;
  generation = codes "g1";
}

abbrev acquired : Event
acquired = record {
  event_id = codes "e";
  workspace_id = codes "w";
  actor_session_id = codes "s1";
  occurred_at = 1500;
  happening = Happening.claim_acquired (codes "c1") (codes "file:a.mjs") ClaimMode.exclusive;
}

abbrev holding : Tx
holding = record sent.1 {
  claims = (codes "c1", held) ∷ [];
  events = sent.1.events ++ acquired ∷ [];
}

abbrev farewell : FinishInput
farewell = record {
  client_message_id = codes "k3";
  to_participant_id = some (codes "ben");
  goal = codes "Ports";
  handoff_payload = record {
    status = HandoffStatus.complete;
    completed = codes "asked" ∷ [];
    remaining = [];
    blockers = [];
    verification = [];
  };
  artifacts = [];
}

abbrev finished_or : Result (Finished × Tx) → Finished × Tx
finished_or (ok r) = r
finished_or (err e) = (
  record { retry = true; message = nothing_recorded.message; released = []; session = ana },
  empty,
)

abbrev finished : Finished × Tx
finished = finished_or (finish_session receipt_id fresh ana farewell 4000 holding)

finished_commit :
    finish_session receipt_id fresh ana farewell 4000 holding ≡ ok (finished.0, finished.1)
unfolding runs finish_session finish_unless finish_message handoff_body claims_of check_generation
    closed_session give_back close_session remove finish_in_transaction after_transaction
finished_commit = refl

finished_anew : finished.0.retry ≡ false
unfolding runs finish_session finish_unless finish_message handoff_body claims_of check_generation
    closed_session give_back close_session remove finish_in_transaction after_transaction
finished_anew = refl

holding-IsKeyed : IsKeyed holding.claims
unfolding lookup
holding-IsKeyed k c h = ground (arith, eq_iff (codes "c1") k)

finish_session_ends_example :
    IsClosed ana 4000 finished.1.sessions finished.0.session
    × ((k : Text) (c : Claim)
        → lookup k finished.1.claims ≡ some c
        → c.owner_session_id ≢ ana.session_id)
    × (finished.0.released ≡ map project_released_claim (claims_of ana.session_id holding))
    × LessIds (ids_of (claims_of ana.session_id holding)) holding.claims finished.1.claims
finish_session_ends_example =
    finish_session_ends receipt_id fresh ana farewell 4000 holding finished.1 finished.0
      holding-IsKeyed finished_commit finished_anew

-- To open this is to open what reading a finish back computes with.
reads : Tx → Tx
unfolding runs claims_of is_record is_opened any distinct
reads tx = tx

ana_keyed :
    (s : Session) → lookup ana.session_id holding.sessions ≡ some s → s.session_id ≡ ana.session_id
unfolding runs
ana_keyed s h = ground arith

not_recorded : any (is_record finished.0.message.message_id ana.session_id) holding.events ≡ false
unfolding reads runs finish_session finish_unless finish_message handoff_body check_generation
    closed_session give_back close_session remove finish_in_transaction after_transaction
not_recorded = refl

one_claim : claims_of ana.session_id holding ≡ held ∷ []
unfolding reads
one_claim = refl

apart : distinct (FinishLog.ids_of (claims_of ana.session_id holding)) ≡ true
unfolding reads
apart = refl

held-IsLogged : IsLogged holding.events held
held-IsLogged = record {
  earlier = sent.1.events;
  fact = acquired;
  later = [];
  parted = refl;
  states = inl refl;
  silent = tt;
}

All-IsLogged : All (IsLogged holding.events) (claims_of ana.session_id holding)
All-IsLogged = rw one_claim (held-IsLogged, tt)

none_later : any (is_opened ana.session_id) [] ≡ false
unfolding any
none_later = refl

none_left : any (λ (c : Claim). c.owner_session_id == ana.session_id) [] ≡ false
unfolding any
none_left = refl

finish_session_roundtrip_example :
    reconstruct_finish_retry finished.0.session finished.0.message.message_id
      (finished.1.events ++ [])
      []
    ≡ ok finished.0.released
finish_session_roundtrip_example =
    finish_session_roundtrip receipt_id fresh ana farewell 4000 holding finished.1 finished.0 [] []
      finished_commit finished_anew ana_keyed not_recorded apart All-IsLogged none_later none_left

-- Sent once more, the finish returns the same claim and writes nothing.
finished_twice :
    finish_session receipt_id fresh ana farewell 5000 finished.1
    ≡ ok (record finished.0 { retry = true }, finished.1)
unfolding reads runs finish_session finish_unless finish_message handoff_body check_generation
    closed_session give_back close_session remove finish_in_transaction after_transaction
    reconstruct_finish_retry split_at is_closed finish_ids are_releases fact_of last_fact
    claim_projections released_by project_released_claim
finished_twice = refl
