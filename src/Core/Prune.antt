-- ===== src/Core/Prune.antt =====
-- `planPrune` of packages/core/src/prune.mjs: which records an operator may reclaim, and in which
-- order. The generation that each entry carries is left out.
pub mod Order
pub mod Safety
pub mod Staying
pub mod References
mod Examples
use agents_can_communicate.Base.{
  ℕ, suc, Bool, true, false, not, ◌&&◌, ◌||◌, Option, none, some, List, [], ◌∷◌, ◌++◌, map, Text,
  codes, ◌==◌, if◌then◌else◌, includes, filter, leb, ltb, every, any, Result, ok, err, Exit,
  require, ◌>>=◌, ◌>>◌, is_some,
}
use agents_can_communicate.Base.Table.{Table, lookup, values, remove}
use agents_can_communicate.Protocol.States.{ReceiptState, same_state}
use agents_can_communicate.Protocol.Messages.{Message}
use agents_can_communicate.Core.Records.{
  Participant, Session, Claim, Receipt, Event, Happening, is_open,
}
use agents_can_communicate.Core.Snapshot.{Snapshot, Intent, LogEntry}
use agents_can_communicate.Core.Claims.{is_live}
use agents_can_communicate.Core.Sessions.{Presence, classify_session_presence}

pub data Kind : Type 0 where
  receipt message intent claim session participant : Kind

pub record Entry : Type 0 where
  pub kind : Kind
  pub id : Text

-- PRUNE_CLASSES
unfoldable pub prune_classes : List Text
prune_classes = codes "sessions" ∷ codes "intents" ∷ codes "claims" ∷ codes "participants" ∷ []

-- `assertClasses`
unfoldable pub assert_classes : List Text → Result (Unit {0})
unfolding prune_classes includes every
assert_classes classes = require (every (λ (c : Text). includes c prune_classes) classes) Exit.usage

pub record Below : Type 0 where
  pub events : ℕ
  pub message_ids : List Text

recorded_id : Happening → Option Text
recorded_id (Happening.message_recorded id _ _) = some id
recorded_id _ = none

add_recorded : Option Text → Below → Below
add_recorded none b = record b { events = suc b.events }
add_recorded (some id) b = record { events = suc b.events; message_ids = id ∷ b.message_ids }

-- `readBelow`: the pages of the log one after another, up to the boundary.
unfoldable pub read_below : (before : ℕ) → List LogEntry → Below
unfolding recorded_id add_recorded
read_below before [] = record { events = 0; message_ids = [] }
read_below before (e ∷ log) =
    let rest = read_below before log in
    if ltb before e.sequence
    then record { events = 0; message_ids = [] }
    else add_recorded (recorded_id e.event.happening) rest

-- `before === null ? … : await readBelow(store, workspaceId, before)`
unfoldable pub below_of : List LogEntry → (before : Option ℕ) → Option Below
unfolding read_below
below_of log none = none
below_of log (some before) = some (read_below before log)

-- The records that pass a test of their id and of the record.
unfoldable pub pick {ℓ} : {A : Type ℓ} → (Text → A → Bool) → Table A → Table A
pick p [] = []
pick p ((k, a) ∷ t) = let rest = pick p t in if p k a then (k, a) ∷ rest else rest

unfoldable pub ids {ℓ} : {A : Type ℓ} → Table A → List Text
ids [] = []
ids ((k, a) ∷ t) = k ∷ ids t

-- Messages that somebody who still exists has not acknowledged.
unfoldable pub open_messages : Snapshot → List Text
unfolding ids values filter includes same_state
open_messages s =
    map (λ (r : Receipt). r.message_id)
      (filter
        (λ (r : Receipt).
          not (same_state r.state ReceiptState.acknowledged)
          && includes r.recipient_participant_id (ids s.participants))
        (values s.receipts))

-- `resolvedMessages`
unfoldable pub resolved_messages : Snapshot → (message_ids : List Text) → Table Message
unfolding pick open_messages includes
resolved_messages s message_ids =
    pick (λ id _. includes id message_ids && not (includes id (open_messages s))) s.messages

-- The sessions that hold a live claim.
unfoldable pub holding : Snapshot → (now : ℕ) → List Text
unfolding filter values is_live
holding s now =
    map (λ (c : Claim). c.owner_session_id)
      (filter (λ (c : Claim). is_live c now) (values s.claims))

unfoldable pub is_offline : Presence → Bool
is_offline Presence.offline = true
is_offline _ = false

-- What the operator asks for.
pub record Wants : Type 0 where
  pub sessions : Bool
  pub intents : Bool
  pub claims : Bool
  pub participants : Bool

-- `classes.includes(name)`, of each class
unfoldable pub wants_of : List Text → Wants
unfolding includes
wants_of classes = record {
  sessions = includes (codes "sessions") classes;
  intents = includes (codes "intents") classes;
  claims = includes (codes "claims") classes;
  participants = includes (codes "participants") classes;
}

-- The participants of the sessions that stay.
unfoldable pub surviving : Table Session → (removed : List Text) → List Text
unfolding pick values includes
surviving sessions removed =
    map (λ (s : Session). s.participant_id)
      (values (pick (λ id _. not (includes id removed)) sessions))

-- The participants whom a message names.
unfoldable pub named_in_messages : List Message → List Text
named_in_messages [] = []
named_in_messages (m ∷ ms) = (m.from_participant_id ∷ m.to_participant_ids) ++ named_in_messages ms

-- `eligibleParticipants`
unfoldable pub eligible_participants :
    Snapshot → (removed_sessions : List Text) → List Message → Table Participant
unfolding pick surviving named_in_messages includes
eligible_participants s removed messages =
    pick
      (λ id _.
        not (includes id (surviving s.sessions removed))
        && not (includes id (named_in_messages messages)))
      s.participants

unfoldable pub entries {ℓ} : {A : Type ℓ} → Kind → Table A → List Entry
entries kind [] = []
entries kind ((id, a) ∷ t) = record { kind = kind; id = id } ∷ entries kind t

-- `wants(name) ? … : []`
unfoldable pub when {ℓ} : {A : Type ℓ} → Bool → Table A → Table A
when true t = t
when false t = []

-- `named`
pub record Named : Type 0 where
  pub sessions : Table Session
  pub intents : Table Intent
  pub claims : Table Claim
  pub participants : Table Participant
  pub messages : Table Message
  pub receipts : Table Receipt

-- `below` is what was read up to the boundary, where there is one.
unfoldable pub doomed_messages : Snapshot → (below : Option Below) → Table Message
unfolding resolved_messages
doomed_messages s none = []
doomed_messages s (some below) = resolved_messages s below.message_ids

-- `order.flatMap(name => named[name])`
unfoldable pub in_order : Named → List Entry
unfolding entries
in_order n =
    entries Kind.receipt n.receipts
    ++ (entries Kind.message n.messages
        ++ (entries Kind.intent n.intents
            ++ (entries Kind.claim n.claims
                ++ (entries Kind.session n.sessions ++ entries Kind.participant n.participants))))

-- `pid_is_alive` is the probe of a process, a port.
module _ (pid_is_alive : ℕ → Bool) where
  -- `eligibleSessions`
  unfoldable pub eligible_sessions : Snapshot → (now : ℕ) → Table Session
  unfolding pick holding is_offline includes classify_session_presence
  eligible_sessions s now =
      pick
        (λ id r.
          not (includes id (holding s now))
          && is_offline (classify_session_presence pid_is_alive r now))
        s.sessions

  -- The sessions that go, and those whose intents go.
  unfoldable pub doomed_sessions : Wants → Snapshot → (now : ℕ) → Table Session
  unfolding eligible_sessions when
  doomed_sessions wants s now = when wants.sessions (eligible_sessions s now)

  unfoldable pub owning : Wants → Snapshot → (now : ℕ) → List Text
  unfolding eligible_sessions doomed_sessions ids
  owning wants s now =
      if wants.intents then ids (eligible_sessions s now) else ids (doomed_sessions wants s now)

  -- What `planPrune` names.
  unfoldable pub named : Wants → Snapshot → (below : Option Below) → (now : ℕ) → Named
  unfolding doomed_sessions owning doomed_messages eligible_participants pick when is_live includes
      ids values
  named wants s below now = record {
    sessions = doomed_sessions wants s now;
    intents = pick (λ _ (i : Intent). includes i.session_id (owning wants s now)) s.intents;
    claims = when wants.claims (pick (λ _ (c : Claim). not (is_live c now)) s.claims);
    participants = when wants.participants (
        eligible_participants s (ids (doomed_sessions wants s now)) (
          values (
            pick (λ _ (m : Message). not (includes m.message_id (ids (doomed_messages s below))))
              s.messages)));
    messages = doomed_messages s below;
    receipts =
        pick (λ _ (r : Receipt). includes r.message_id (ids (doomed_messages s below))) s.receipts;
  }

  -- `planPrune`; `before` is the boundary, where the operator gives one.
  unfoldable pub plan_prune :
      (classes : List Text)
      → Snapshot
      → List LogEntry
      → (before : Option ℕ) → (now : ℕ) → Result (List Entry)
  unfolding assert_classes named in_order wants_of below_of
  plan_prune classes s log before now =
      assert_classes classes >> ok (in_order (named (wants_of classes) s (below_of log before) now))

-- One record that is removed.
unfoldable pub reclaim : Snapshot → Entry → Snapshot
unfolding remove
reclaim s e = elim e.kind [
  | Kind.receipt ↦ record s { receipts = remove e.id s.receipts }
  | Kind.message ↦ record s { messages = remove e.id s.messages }
  | Kind.intent ↦ record s { intents = remove e.id s.intents }
  | Kind.claim ↦ record s { claims = remove e.id s.claims }
  | Kind.session ↦ record s { sessions = remove e.id s.sessions }
  | Kind.participant ↦ record s { participants = remove e.id s.participants }
]

-- What a pass has done when it stops: the entries so far, in their order.
unfoldable pub reclaim_all : Snapshot → List Entry → Snapshot
unfolding reclaim
reclaim_all s [] = s
reclaim_all s (e ∷ es) = reclaim_all (reclaim s e) es
