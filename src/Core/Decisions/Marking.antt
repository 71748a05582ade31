-- ===== src/Core/Decisions/Marking.antt =====
-- The rounds over the decisions: what is set is the status of the connected group.
use agents_can_communicate.Base.{
  ℕ, ◌≡◌, ◌↔◌, refl, ◌∙◌, true, none, some, List, [], ◌∷◌, arith, Text, ◌==◌, eq_iff, if◌then◌else◌,
  includes, distinct, length, Bool-cases, Option-cases, inl, inr,
}
use agents_can_communicate.Base.Table.{Table, lookup, insert, lookup-insert}
use agents_can_communicate.Protocol.Messages.{Message}
use agents_can_communicate.Core.Decisions.{
  Status, status_of, set_statuses, group_of, mark_group, mark_all,
}
use agents_can_communicate.Core.Decisions.Distinct.{distinct-group_of}
use agents_can_communicate.Core.Decisions.Walks.{
  Connected, here, step, linked_sym, IsKnown, group_decides,
}

pub Connected-trans :
    (es : List (Text × Text)) (a b : Text)
    → Connected es a b
    → {c : Text} → Connected es b c
    → Connected es a c
Connected-trans es a b p here = p
Connected-trans es a b p (step {u} {v} q l) = step (Connected-trans es a b p q) l

pub Connected-sym :
    (es : List (Text × Text)) (a : Text) {b : Text} → Connected es a b → Connected es b a
Connected-sym es a here = here
Connected-sym es a (step {u} {v} p l) =
    Connected-trans es v u (step here (linked_sym v u es ∙ l)) (Connected-sym es a p)

module _ (t : Table Message) (es : List (Text × Text)) where
  -- The status is that of the group of the decisions that are connected with it, each once.
  abbrev pub IsStatus : Text → Status → Type 0
  IsStatus id st =
      (group : List Text) × (st ≡ status_of t es group id)
      × (distinct group ≡ true)
      × ((v : Text) → (includes v group ≡ true) ↔ Connected es id v)

  lookup-set_statuses :
      (group ids : List Text) (statuses : Table Status) (id : Text)
      → lookup id (set_statuses t es group ids statuses)
        ≡ (if includes id ids then some (status_of t es group id) else lookup id statuses)
  unfolding set_statuses includes
  lookup-set_statuses group [] statuses id = ground arith
  lookup-set_statuses group (x ∷ xs) statuses id = ground (
    arith,
    lookup-set_statuses group xs (insert x (status_of t es group x) statuses) id,
    lookup-insert x id (status_of t es group x) statuses,
    eq_iff id x,
    eq_iff x id,
  )

  -- What is set already is right.
  abbrev pub AllRight : Table Status → Type 0
  AllRight statuses = (id : Text) (st : Status) → lookup id statuses ≡ some st → IsStatus id st

  -- What is set stays set.
  abbrev pub Keeps : Table Status → Table Status → Type 0
  Keeps before after =
      (id : Text) (st : Status)
      → lookup id before ≡ some st
      → (st' : Status) × (lookup id after ≡ some st')

  in_group :
      (start id : Text) (group : List Text)
      → ((v : Text) → (includes v group ≡ true) ↔ Connected es start v)
      → includes id group ≡ true
      → (v : Text) → (includes v group ≡ true) ↔ Connected es id v
  in_group start id group spec m v = (
    λ h. Connected-trans es id start (Connected-sym es start ((spec id).0 m)) ((spec v).0 h),
    λ c. (spec v).1 (Connected-trans es start id ((spec id).0 m) c),
  )

  set-AllRight :
      (start : Text) (group : List Text) (statuses : Table Status)
      → distinct group ≡ true
      → ((v : Text) → (includes v group ≡ true) ↔ Connected es start v)
      → AllRight statuses
      → AllRight (set_statuses t es group group statuses)
  set-AllRight start group statuses dist spec right id st h =
      elim (Bool-cases (includes id group)) [
        | inl m ↦ (
          group,
          ground (arith, lookup-set_statuses group group statuses id),
          dist,
          in_group start id group spec m,
        )
        | inr n ↦ right id st (ground (arith, lookup-set_statuses group group statuses id))
      ]

  set-Keeps :
      (group : List Text) (statuses : Table Status)
      → Keeps statuses (set_statuses t es group group statuses)
  set-Keeps group statuses id st h = elim (Bool-cases (includes id group)) [
    | inl m ↦ (status_of t es group id, lookup-set_statuses group group statuses id ∙ rw m refl)
    | inr n ↦ (st, lookup-set_statuses group group statuses id ∙ rw n h)
  ]

  -- One round: it returns, what is set is right, and its start is set.
  abbrev IsMarked : Text → Table Status → Table Status → Type 0
  IsMarked start before after =
      AllRight after × Keeps before after × ((st : Status) × (lookup start after ≡ some st))

  mark_new :
      (fuel : ℕ) (start : Text) (statuses : Table Status) (group : List Text)
      → lookup start statuses ≡ none
      → group_of es fuel start ≡ some group
      → mark_group t es fuel start statuses ≡ some (set_statuses t es group group statuses)
  unfolding mark_group
  mark_new fuel start statuses group new ends = ground arith

  mark_old :
      (fuel : ℕ) (start : Text) (statuses : Table Status) (st : Status)
      → lookup start statuses ≡ some st
      → mark_group t es fuel start statuses ≡ some statuses
  unfolding mark_group
  mark_old fuel start statuses st old = ground arith

  mark_group_lem :
      (known : List Text) (start : Text) (statuses : Table Status)
      → IsKnown known es
      → includes start known ≡ true
      → AllRight statuses
      → (after : Table Status) × (mark_group t es (length known) start statuses ≡ some after)
        × IsMarked start statuses after
  mark_group_lem known start statuses k m right = elim (Option-cases (lookup start statuses)) [
    | inl new ↦
        let (group, ends, spec) = group_decides es known start k m in
        (
          set_statuses t es group group statuses,
          mark_new (length known) start statuses group new ends,
          (
            set-AllRight start group statuses (distinct-group_of es (length known) start group ends)
                spec right,
            set-Keeps group statuses,
            (
              status_of t es group start,
              lookup-set_statuses group group statuses start ∙ rw ((spec start).1 here) refl,
            ),
          ),
        )
    | inr (st, old) ↦ (
      statuses,
      mark_old (length known) start statuses st old,
      (right, λ id st h. (st, h), (st, old)),
    )
  ]

  pub mark_all_lem :
      (known starts : List Text) (statuses : Table Status)
      → IsKnown known es
      → ((v : Text) → includes v starts ≡ true → includes v known ≡ true)
      → AllRight statuses
      → (after : Table Status) × (mark_all t es (length known) starts statuses ≡ some after)
        × AllRight after
        × Keeps statuses after
        × ((v : Text) → includes v starts ≡ true → (st : Status) × (lookup v after ≡ some st))
  unfolding mark_all
  mark_all_lem known [] statuses k sub right =
      (statuses, refl, right, λ id st h. (st, h), λ v h. absurd (unfold includes in cc))
  mark_all_lem known (x ∷ xs) statuses k sub right =
      let (marked, round, (right', kept, top)) =
        mark_group_lem known x statuses k (sub x (unfold includes in ground (arith, eq_iff x x)))
          right in
      let (after, ends, right'', kept', all) =
        mark_all_lem known xs marked k (λ v h. sub v (unfold includes in ground arith)) right' in
      (
        after,
        rw (round, mark_all) ends,
        right'',
        λ id st h. let (st', h') = kept id st h in kept' id st' h',
        λ v h. elim (Bool-cases (v == x)) [
          | inl e ↦ rw ((eq_iff v x).0 e) (kept' x top.0 top.1)
          | inr n ↦ all v (unfold includes in ground arith)
        ],
      )
