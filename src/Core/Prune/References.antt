-- ===== src/Core/Prune/References.antt =====
-- A pass that stops anywhere breaks no reference.
use agents_can_communicate.Base.{
  ℕ, ◌≡◌, Bool, true, false, Option, some, List, ◌∷◌, ◌++◌, arith, Text, includes, ok, Exit,
  require, ◌>>◌,
}
use agents_can_communicate.Base.Table.{Table, lookup}
use agents_can_communicate.Protocol.Messages.{Message}
use agents_can_communicate.Core.Records.{Session, Claim, Receipt}
use agents_can_communicate.Core.Snapshot.{Snapshot, Intent, LogEntry}
use agents_can_communicate.Core.Claims.{is_live}
use agents_can_communicate.Core.Prune.Order.{has}
use agents_can_communicate.Core.Prune.Safety.{
  left_sessions, left_participants, left_messages, left_intents, left_receipts, left_claims,
}
use agents_can_communicate.Core.Prune.{
  Kind, Entry, Wants, Below, named, in_order, reclaim_all, plan_prune, wants_of, below_of,
  assert_classes,
}
use agents_can_communicate.Core.Prune.Staying.{
  was_there, still_there, message_stays, intent_session_stays, claim_session_stays,
  participant_of_session_stays, participant_of_message_stays,
}

-- Every message is stored under its own id.
abbrev pub IsKeyed : Table Message → Type 0
IsKeyed t = (k : Text) (m : Message) → lookup k t ≡ some m → m.message_id ≡ k

-- A reference from a record that is left, to what was there before, still leads somewhere.
abbrev pub Leads {ℓ} : {A : Type ℓ} → Text → Table A → Table A → Type ℓ
Leads {A = A} id before after = (a : A) → lookup id before ≡ some a → lookup id after ≡ some a

pub record KeepsReferences (now : ℕ) (s t : Snapshot) : Type 0 where
  pub receipts :
      (k : Text) (r : Receipt)
      → lookup k t.receipts ≡ some r
      → Leads r.message_id s.messages t.messages
  pub intents :
      (k : Text) (i : Intent)
      → lookup k t.intents ≡ some i
      → Leads i.session_id s.sessions t.sessions
  -- A claim that has run out may name a session that is gone.
  pub claims :
      (k : Text) (c : Claim)
      → lookup k t.claims ≡ some c
      → is_live c now ≡ true
      → Leads c.owner_session_id s.sessions t.sessions
  pub sessions :
      (k : Text) (r : Session)
      → lookup k t.sessions ≡ some r
      → Leads r.participant_id s.participants t.participants
  pub messages :
      (k : Text) (m : Message) (p : Text)
      → lookup k t.messages ≡ some m
      → includes p (m.from_participant_id ∷ m.to_participant_ids) ≡ true
      → Leads p s.participants t.participants

module _ (pid_is_alive : ℕ → Bool) (wants : Wants) (s : Snapshot) (below : Option Below) (now : ℕ)
    (done rest : List Entry)
    (cut : done ++ rest ≡ in_order (named pid_is_alive wants s below now)) where
  sessions_lead :
      (id : Text)
      → has Kind.session id done ≡ false
      → Leads id s.sessions (reclaim_all s done).sessions
  sessions_lead id kept a h = still_there _ _ _ a (left_sessions id s done) kept h

  participants_lead :
      (id : Text)
      → has Kind.participant id done ≡ false
      → Leads id s.participants (reclaim_all s done).participants
  participants_lead id kept a h = still_there _ _ _ a (left_participants id s done) kept h

  pass_KeepsReferences : IsKeyed s.messages → KeepsReferences now s (reclaim_all s done)
  pass_KeepsReferences keyed = record {
    receipts = λ k r h.
        let (kept, found) = was_there _ _ _ r (left_receipts k s done) h in
        λ m g.
          still_there _ _ _ m (left_messages r.message_id s done)
            (message_stays pid_is_alive wants s below now done rest cut k r found kept) g;
    intents = λ k i h.
        let (kept, found) = was_there _ _ _ i (left_intents k s done) h in
        sessions_lead i.session_id
          (intent_session_stays pid_is_alive wants s below now done rest cut k i found kept);
    claims = λ k c h live.
        let (kept, found) = was_there _ _ _ c (left_claims k s done) h in
        sessions_lead c.owner_session_id
          (claim_session_stays pid_is_alive wants s below now done rest cut k c found live);
    sessions = λ k r h.
        let (kept, found) = was_there _ _ _ r (left_sessions k s done) h in
        participants_lead r.participant_id (
          participant_of_session_stays pid_is_alive wants s below now done rest cut k r found kept);
    messages = λ k m p h inside.
        let (kept, found) = was_there _ _ _ m (left_messages k s done) h in
        participants_lead p (
          participant_of_message_stays pid_is_alive wants s below now done rest cut k m p found
            (keyed k m found) kept inside);
  }

planned_entries :
    (b : Bool) (es plan : List Entry) → (require b Exit.usage >> ok es) ≡ ok plan → plan ≡ es
planned_entries b es plan h = ground arith

-- However far a pass of the plan came, no reference is broken that led somewhere before: of a
-- receipt to its message, of an intent or a live claim to its session, of a session to its
-- participant, of a message to its sender and its addressees. Every message is stored under its own
-- id.
pub plan_KeepsReferences :
    (pid_is_alive : ℕ → Bool) (classes : List Text) (s : Snapshot) (log : List LogEntry)
    (before : Option ℕ) (now : ℕ) (done rest : List Entry)
    → IsKeyed s.messages
    → plan_prune pid_is_alive classes s log before now ≡ ok (done ++ rest)
    → KeepsReferences now s (reclaim_all s done)
unfolding plan_prune assert_classes
plan_KeepsReferences pid_is_alive classes s log before now done rest keyed h =
    pass_KeepsReferences pid_is_alive (wants_of classes) s (below_of log before) now done rest
      (planned_entries _ _ _ h) keyed
