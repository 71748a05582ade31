-- ===== src/Core/Decisions.antt =====
-- `decisionView` of packages/core/src/decision-state.mjs: the status of each decision, from the
-- groups that the replacements and withdrawals connect.
pub mod Walks
pub mod Distinct
pub mod Marking
pub mod Naming
pub mod Standing
mod Examples
use agents_can_communicate.Base.{
  ℕ, zero, suc, Bool, true, false, not, ◌&&◌, ◌||◌, Option, none, some, List, [], ◌∷◌, ◌++◌, map,
  Text, ◌==◌, if◌then◌else◌, includes, filter, any, length, is_none, eqb,
}
use agents_can_communicate.Base.Table.{Table, lookup, insert, values}
use agents_can_communicate.Base.Order.{sort, unique}
use agents_can_communicate.Protocol.Messages.{Message, ChangeAction, DecisionChange, is_decision}

-- `new Map(messages.map(m => [m.messageId, m]))`
unfoldable pub by_id : Table Message → List Message → Table Message
unfolding insert
by_id t [] = t
by_id t (m ∷ ms) = by_id (insert m.message_id m t) ms

unfoldable pub decisions_of : List Message → Table Message
unfolding by_id filter is_decision
decisions_of messages = by_id [] (filter (λ (m : Message). is_decision m.kind) messages)

unfoldable pub keys {ℓ} : {A : Type ℓ} → Table A → List Text
keys [] = []
keys ((k, a) ∷ t) = k ∷ keys t

-- `message.decisionChange?.messageIds ?? []`
unfoldable pub targets : Option DecisionChange → List Text
targets none = []
targets (some change) = change.message_ids

-- The pairs of a message and a known decision that it names.
unfoldable pub named_by : (message_id : Text) → (known : List Text) → List Text → List (Text × Text)
unfolding includes
named_by id known [] = []
named_by id known (t ∷ ts) =
    let rest = named_by id known ts in if includes t known then (id, t) ∷ rest else rest

unfoldable pub edges : (known : List Text) → Table Message → List (Text × Text)
unfolding named_by targets
edges known [] = []
edges known ((id, m) ∷ t) = named_by id known (targets m.decision_change) ++ edges known t

-- `neighbours.get(id)`, with repetitions: who names it, and whom it names.
unfoldable pub linked : Text → List (Text × Text) → List Text
unfolding ◌==◌
linked u [] = []
linked u ((m, t) ∷ es) =
    let rest = linked u es in
    let out = if m == u then t ∷ rest else rest in if t == u then m ∷ out else out

-- `replaced.has(id)`
unfoldable pub is_replaced : List (Text × Text) → Text → Bool
unfolding ◌==◌
is_replaced [] id = false
is_replaced ((m, t) ∷ es) id = t == id || is_replaced es id

-- `group` and `pending`; the top of the stack is its head.
pub record Search : Type 0 where
  pub group : List Text
  pub pending : List Text

unfoldable pub visit : Text → Search → Search
unfolding includes
visit v s =
    if includes v s.group then s else record { group = s.group ++ v ∷ []; pending = v ∷ s.pending }

unfoldable pub visit_all : List Text → Search → Search
unfolding visit
visit_all [] s = s
visit_all (v ∷ vs) s = visit_all vs (visit v s)

module _ (es : List (Text × Text)) where
  unfoldable pub neighbours : Text → List Text
  unfolding unique linked
  neighbours u = unique (linked u es)

  -- `while (pending.length > 0)`, on fuel.
  unfoldable pub walk : ℕ → Search → Option (List Text)
  unfolding visit_all neighbours
  walk zero s = elim s.pending [ [] ↦ some s.group | _ ∷ _ ↦ none ]
  walk (suc fuel) s = elim s.pending [
    | [] ↦ some s.group
    | u ∷ rest ↦ walk fuel (visit_all (neighbours u) (record s { pending = rest }))
  ]

  unfoldable pub group_of : (fuel : ℕ) → (start : Text) → Option (List Text)
  unfolding walk
  group_of fuel start = walk fuel (record { group = start ∷ []; pending = start ∷ [] })

pub data State : Type 0 where
  current superseded withdrawn : State

-- `decisionStatus`
pub record Status : Type 0 where
  pub state : State
  pub is_head : Bool
  pub conflicted : Bool
  pub head_count : ℕ
  pub current_message_id : Option Text
  pub group_id : Option Text

withdraws : Option DecisionChange → Bool
withdraws none = false
withdraws (some change) = elim change.action [
  | ChangeAction.replace ↦ false
  | ChangeAction.withdraw ↦ true
]

change_of : Option Message → Option DecisionChange
change_of none = none
change_of (some m) = m.decision_change

-- `decisions.get(id).decisionChange?.action === "withdraw"`
unfoldable pub is_withdrawal : Table Message → Text → Bool
unfolding withdraws change_of lookup
is_withdrawal t id = withdraws (change_of (lookup id t))

-- `decisions.get(id).decisionChange === undefined`
unfoldable pub is_root : Table Message → Text → Bool
unfolding change_of lookup
is_root t id = is_none (change_of (lookup id t))

first : List Text → Option Text
first [] = none
first (x ∷ xs) = some x

unfoldable pub only_one : List Text → Option Text
only_one (x ∷ []) = some x
only_one _ = none

or_all : List Text → List Text → List Text
or_all [] all = all
or_all (x ∷ xs) all = x ∷ xs

module _ (t : Table Message) (es : List (Text × Text)) where
  unfoldable pub heads : (group : List Text) → List Text
  unfolding is_replaced filter
  heads group = filter (λ (id : Text). not (is_replaced es id)) group

  unfoldable pub has_decision : (group : List Text) → Bool
  unfolding heads any is_withdrawal
  has_decision group = any (λ (id : Text). not (is_withdrawal t id)) (heads group)

  unfoldable pub state_of : (group : List Text) → Text → State
  unfolding is_replaced has_decision is_withdrawal
  state_of group id =
      if not (is_replaced es id)
      then (if is_withdrawal t id then State.withdrawn else State.current)
      else if has_decision group
      then State.superseded
      else State.withdrawn

  unfoldable pub status_of : (group : List Text) → Text → Status
  unfolding state_of is_replaced heads is_root first only_one or_all sort filter
  status_of group id = record {
    state = state_of group id;
    is_head = not (is_replaced es id);
    conflicted = not (eqb (length (heads group)) 1);
    head_count = length (heads group);
    current_message_id = only_one (heads group);
    group_id = first (sort (or_all (filter (is_root t) group) group));
  }

  -- `for (const id of group) statuses.set(id, …)`
  unfoldable pub set_statuses : (group : List Text) → List Text → Table Status → Table Status
  unfolding status_of insert
  set_statuses group [] statuses = statuses
  set_statuses group (id ∷ ids) statuses =
      set_statuses group ids (insert id (status_of group id) statuses)

  -- One round of the outer loop; `none` would be a walk that ran out of fuel.
  unfoldable pub mark_group : (fuel : ℕ) → Text → Table Status → Option (Table Status)
  unfolding set_statuses lookup
  mark_group fuel start statuses = elim (lookup start statuses) [
    | some _ ↦ some statuses
    | none ↦ elim (group_of es fuel start) [
      | none ↦ none
      | some group ↦ some (set_statuses group group statuses)
    ]
  ]

  unfoldable pub mark_all : (fuel : ℕ) → List Text → Table Status → Option (Table Status)
  unfolding mark_group
  mark_all fuel [] statuses = some statuses
  mark_all fuel (start ∷ starts) statuses = elim (mark_group fuel start statuses) [
    | none ↦ none
    | some marked ↦ mark_all fuel starts marked
  ]

-- `decisionView(messages)`: the statuses; as many rounds as there are decisions are enough.
unfoldable pub decision_view : List Message → Option (Table Status)
unfolding mark_all decisions_of edges keys
decision_view messages =
    let t = decisions_of messages in
    let known = keys t in mark_all t (edges known t) (length known) known []

-- `isCurrentDecision`, of the status that a message has, if it has one.
unfoldable pub is_current_decision : Option Status → Bool
is_current_decision none = true
is_current_decision (some status) = status.is_head
