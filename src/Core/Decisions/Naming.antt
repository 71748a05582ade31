-- ===== src/Core/Decisions/Naming.antt =====
-- Which decisions name which, in the list of pairs.
use agents_can_communicate.Base.{
  ◌≡◌, refl, Bool, true, ◌&&◌, ◌||◌, List, [], ◌∷◌, ◌++◌, arith, Text, eq_iff, includes, any,
  Bool-cases, inl, inr,
}
use agents_can_communicate.Base.Table.{Table, values}
use agents_can_communicate.Protocol.Messages.{Message}
use agents_can_communicate.Core.Decisions.{keys, targets, named_by, edges, linked, is_replaced}
use agents_can_communicate.Core.Decisions.Walks.{IsKnown}

linked-append :
    (u v : Text) (xs ys : List (Text × Text))
    → includes v (linked u (xs ++ ys)) ≡ (includes v (linked u xs) || includes v (linked u ys))
unfolding linked includes
linked-append u v [] ys = refl
linked-append u v ((m, t) ∷ xs) ys = ground (arith, linked-append u v xs ys)

named_by-IsKnown :
    (known : List Text) (id : Text) (ts : List Text)
    → includes id known ≡ true
    → IsKnown known (named_by id known ts)
unfolding named_by linked includes
named_by-IsKnown known id [] m u v h = cc
named_by-IsKnown known id (t ∷ ts) m u v h =
    ground
      (arith, named_by-IsKnown known id ts m u v, eq_iff id u, eq_iff t u, eq_iff v id, eq_iff v t)

-- What the decisions name of each other are known decisions.
pub edges-IsKnown :
    (known : List Text) (t : Table Message)
    → ((v : Text) → includes v (keys t) ≡ true → includes v known ≡ true)
    → IsKnown known (edges known t)
unfolding edges
edges-IsKnown known [] sub u v h = absurd (unfold linked includes in cc)
edges-IsKnown known ((id, m) ∷ t) sub u v h =
    elim (Bool-cases (includes v (linked u (named_by id known (targets m.decision_change))))) [
      | inl e ↦
          named_by-IsKnown known id (targets m.decision_change)
            (sub id (unfold keys includes in ground (arith, eq_iff id id))) u v e
      | inr n ↦
          edges-IsKnown known t (λ w k. sub w (unfold keys includes in ground arith)) u v
            (ground (
              arith,
              linked-append u v (named_by id known (targets m.decision_change)) (edges known t),
            ))
    ]

-- Some decision of the list names it.
abbrev pub named_in : Table Message → Text → Bool
named_in t id = any (λ (m : Message). includes id (targets m.decision_change)) (values t)

is_replaced-append :
    (xs ys : List (Text × Text)) (id : Text)
    → is_replaced (xs ++ ys) id ≡ (is_replaced xs id || is_replaced ys id)
unfolding is_replaced
is_replaced-append [] ys id = refl
is_replaced-append ((m, t) ∷ xs) ys id = ground (arith, is_replaced-append xs ys id)

is_replaced-named_by :
    (known : List Text) (id v : Text) (ts : List Text)
    → is_replaced (named_by id known ts) v ≡ (includes v known && includes v ts)
unfolding is_replaced named_by includes
is_replaced-named_by known id v [] = ground arith
is_replaced-named_by known id v (t ∷ ts) =
    ground (arith, is_replaced-named_by known id v ts, eq_iff t v, eq_iff v t)

pub is_replaced-edges :
    (known : List Text) (t : Table Message) (v : Text)
    → is_replaced (edges known t) v ≡ (includes v known && named_in t v)
unfolding edges values any
is_replaced-edges known [] v = unfold is_replaced in ground arith
is_replaced-edges known ((id, m) ∷ t) v = ground (
  arith,
  is_replaced-append (named_by id known (targets m.decision_change)) (edges known t) v,
  is_replaced-named_by known id v (targets m.decision_change),
  is_replaced-edges known t v,
)
