-- ===== src/Core/Decisions/Examples.antt =====
-- A decision, one that replaces it, and another on its own.
use agents_can_communicate.Base.{
  length, ◌↔◌, ◌≡◌, refl, true, Option, none, some, List, [], ◌∷◌, map, Text, codes, ◌==◌, includes,
  filter, any,
}
use agents_can_communicate.Base.Table.{Table, lookup, insert}
use agents_can_communicate.Base.Order.{sort, unique, insert_sorted, text_leb}
use agents_can_communicate.Protocol.Messages.{
  Message, MessageKind, Obligation, DecisionChange, ChangeAction, is_decision,
}
use agents_can_communicate.Core.Decisions.{
  State, Status, decision_view, decisions_of, by_id, keys, edges, named_by, targets, linked,
  neighbours, visit, visit_all, walk, group_of, is_replaced, heads, has_decision, is_withdrawal,
  is_root, state_of, status_of, set_statuses, mark_group, mark_all,
}
use agents_can_communicate.Core.Decisions.Standing.{Stands, decision_view-Stands}
use agents_can_communicate.Core.Decisions.Naming.{edges-IsKnown}
use agents_can_communicate.Core.Decisions.Walks.{Connected, group_decides}

abbrev decision : Text → Option DecisionChange → Message
decision id change = record {
  message_id = id;
  thread_id = id;
  client_message_id = id;
  workspace_id = codes "w";
  from_participant_id = codes "ana";
  from_session_id = codes "s1";
  to_participant_ids = codes "ben" ∷ [];
  kind = MessageKind.decision;
  obligation = Obligation.nothing;
  subject = codes "Port";
  body = codes "8080";
  in_reply_to = none;
  artifacts = [];
  handoff_payload = none;
  decision_change = change;
  sent_at = 1000;
}

abbrev messages : List Message
messages =
    decision (codes "d1") none
    ∷ decision (codes "d2")
        (some (record { action = ChangeAction.replace; message_ids = codes "d1" ∷ [] }))
    ∷ decision (codes "d3") none
    ∷ []

abbrev states : Option (Table Status) → List (Text × State)
states none = []
states (some statuses) = map (λ (s : Text × Status). (s.0, s.1.state)) statuses

-- The first is superseded, the other two are current.
viewed :
    states (decision_view messages)
    ≡ (codes "d1", State.superseded)
      ∷ (codes "d2", State.current)
      ∷ (codes "d3", State.current)
      ∷ []
unfolding decision_view decisions_of by_id keys edges named_by targets linked neighbours visit
    visit_all walk group_of is_replaced heads has_decision is_withdrawal is_root state_of status_of
    set_statuses mark_group mark_all is_decision lookup insert sort unique insert_sorted text_leb
    ◌==◌ includes filter any
viewed = refl

decision_view-Stands_example :
    (statuses : Table Status) × (decision_view messages ≡ some statuses)
    × ((id : Text)
        → includes id (keys (decisions_of messages)) ≡ true
        → (st : Status) × (lookup id statuses ≡ some st)
          × Stands
              (decisions_of messages)
              (edges (keys (decisions_of messages)) (decisions_of messages))
              id
              st)
decision_view-Stands_example = decision_view-Stands messages

abbrev known : List Text
known = keys (decisions_of messages)

abbrev es : List (Text × Text)
es = edges known (decisions_of messages)

is_known : includes (codes "d1") known ≡ true
unfolding decisions_of by_id keys is_decision insert ◌==◌ includes filter
is_known = refl

group_decides_example :
    (group : List Text) × (group_of es (length known) (codes "d1") ≡ some group)
    × ((v : Text) → (includes v group ≡ true) ↔ Connected es (codes "d1") v)
group_decides_example =
    group_decides es known (codes "d1") (edges-IsKnown known (decisions_of messages) (λ v h. h))
      is_known
