-- ===== src/Protocol/States.antt =====
-- packages/protocol/src/states.mjs: the states of a receipt and the moves between them.
use agents_can_communicate.Base.{
  ℕ, ◌≤◌, ◌≡◌, refl, Bool, true, false, Option, none, some, List, [], ◌∷◌, arith, Text, codes, ◌==◌,
  if◌then◌else◌, leb, eqb, Result, ok, err, Exit, present, ◌>>=◌,
}

pub data ReceiptState : Type 0 where
  queued offered retrieved acknowledged : ReceiptState

-- The position in RECEIPT_STATES.
unfoldable pub position : ReceiptState → ℕ
position ReceiptState.queued = 0
position ReceiptState.offered = 1
position ReceiptState.retrieved = 2
position ReceiptState.acknowledged = 3

unfoldable pub same_state : ReceiptState → ReceiptState → Bool
unfolding position
same_state a b = eqb (position a) (position b)

-- RECEIPT_NEXT
unfoldable pub receipt_next : ReceiptState → List ReceiptState
receipt_next ReceiptState.queued =
    ReceiptState.offered ∷ ReceiptState.retrieved ∷ ReceiptState.acknowledged ∷ []
receipt_next ReceiptState.offered = ReceiptState.retrieved ∷ ReceiptState.acknowledged ∷ []
receipt_next ReceiptState.retrieved = ReceiptState.acknowledged ∷ []
receipt_next ReceiptState.acknowledged = []

member : ReceiptState → List ReceiptState → Bool
unfolding same_state
member a [] = false
member a (x ∷ xs) = if same_state a x then true else member a xs

-- The name that a state has in a record.
unfoldable pub state_name : ReceiptState → Text
state_name ReceiptState.queued = codes "queued"
state_name ReceiptState.offered = codes "offered"
state_name ReceiptState.retrieved = codes "retrieved"
state_name ReceiptState.acknowledged = codes "acknowledged"

-- `RECEIPT_STATES.includes(name)`, with the state that is found.
unfoldable pub known_state : Text → Option ReceiptState
unfolding ◌==◌
known_state name =
    if name == codes "queued"
    then some ReceiptState.queued
    else if name == codes "offered"
    then some ReceiptState.offered
    else if name == codes "retrieved"
    then some ReceiptState.retrieved
    else if name == codes "acknowledged"
    then some ReceiptState.acknowledged
    else none

-- `advanceReceipt` of two known states.
unfoldable pub advance : ReceiptState → ReceiptState → Result ReceiptState
unfolding same_state receipt_next member
advance current next =
    if same_state current next
    then ok next
    else if member next (receipt_next current)
    then ok next
    else err Exit.conflict

unfoldable pub advance_receipt : Text → Text → Result ReceiptState
advance_receipt current next = do
  from ← present (known_state current) Exit.invalid
  to ← present (known_state next) Exit.invalid
  advance from to

-- A move is accepted exactly where it does not go back in the order queued, offered, retrieved,
-- acknowledged, and then it ends in the state that was asked for; any other is a CONFLICT.
pub advance-eq-forward :
    (current next : ReceiptState)
    → advance current next
      ≡ (if leb (position current) (position next) then ok next else err Exit.conflict)
unfolding advance position
advance-eq-forward ReceiptState.queued next = ground arith
advance-eq-forward ReceiptState.offered next = ground arith
advance-eq-forward ReceiptState.retrieved next = ground arith
advance-eq-forward ReceiptState.acknowledged next = ground arith

-- A list of moves, each from where the one before ended.
unfoldable pub advance_all : ReceiptState → List ReceiptState → Result ReceiptState
advance_all current [] = ok current
advance_all current (next ∷ rest) = advance current next >>= λ s. advance_all s rest

pub advance-le :
    (current next reached : ReceiptState)
    → advance current next ≡ ok reached
    → position current ≤ position reached
advance-le current next reached h = ground (arith, advance-eq-forward current next)

-- No sequence of accepted moves takes a receipt back: the state that it ends in is at or after the
-- state that it began in.
pub advance_all-le :
    (current : ReceiptState) (moves : List ReceiptState) (last : ReceiptState)
    → advance_all current moves ≡ ok last
    → position current ≤ position last
unfolding advance_all
advance_all-le current [] last h = ground arith
advance_all-le current (next ∷ rest) last h =
    ground (arith, advance-eq-forward current next, advance_all-le next rest last)

-- The names that `advanceReceipt` knows are the four names of the states.
pub known_state-state_name : (s : ReceiptState) → known_state (state_name s) ≡ some s
unfolding known_state state_name
known_state-state_name ReceiptState.queued = refl
known_state-state_name ReceiptState.offered = refl
known_state-state_name ReceiptState.retrieved = refl
known_state-state_name ReceiptState.acknowledged = refl

-- A name that is no state is refused as DATA, whichever side it stands on.
pub advance_receipt-unknown :
    (name other : Text)
    → known_state name ≡ none
    → (advance_receipt name other ≡ err Exit.invalid)
      × ((s : ReceiptState) → advance_receipt (state_name s) name ≡ err Exit.invalid)
unfolding advance_receipt
advance_receipt-unknown name other h = (ground arith, λ s. ground (arith, known_state-state_name s))

pub advance-eq_next :
    (current next reached : ReceiptState) → advance current next ≡ ok reached → reached ≡ next
advance-eq_next current next reached h = ground (arith, advance-eq-forward current next)
