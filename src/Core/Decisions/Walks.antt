-- ===== src/Core/Decisions/Walks.antt =====
-- The walk ends, and it finds exactly the decisions that are connected with its start.
use agents_can_communicate.Base.{
  ℕ, zero, suc, ◌+◌, ◌≤◌, ◌<◌, ◌≡◌, ◌⊎◌, ◌↔◌, inl, inr, refl, ap, true, false, not, ◌&&◌, ◌||◌,
  some, List, [], ◌∷◌, ◌++◌, arith, Text, ◌==◌, eq_iff, if◌then◌else◌, includes, length, Bool-cases,
  ◌∙◌,
}
use agents_can_communicate.Base.Order.{includes-unique}
use agents_can_communicate.Core.Decisions.{
  linked, Search, visit, visit_all, neighbours, walk, group_of,
}

-- Decisions that are joined by a chain of replacements and withdrawals, either way.
pub data Connected (es : List (Text × Text)) (start : Text) : Text → Type 0 where
  here : Connected es start start
  step :
      {u v : Text} → Connected es start u → includes v (linked u es) ≡ true → Connected es start v

pub includes-append :
    (a : Text) (xs ys : List Text) → includes a (xs ++ ys) ≡ (includes a xs || includes a ys)
unfolding includes
includes-append a [] ys = refl
includes-append a (x ∷ xs) ys = ground (arith, includes-append a xs ys)

pub linked_sym :
    (u v : Text) (es : List (Text × Text)) → includes v (linked u es) ≡ includes u (linked v es)
unfolding linked includes
linked_sym u v [] = refl
linked_sym u v ((m, t) ∷ es) = ground (
  arith,
  linked_sym u v es,
  eq_iff m u,
  eq_iff t u,
  eq_iff m v,
  eq_iff t v,
  eq_iff v m,
  eq_iff v t,
  eq_iff u m,
  eq_iff u t,
)

group-visit_all :
    (w : Text) (vs : List Text) (s : Search)
    → includes w (visit_all vs s).group ≡ (includes w s.group || includes w vs)
unfolding visit_all visit includes
group-visit_all w [] s = ground arith
group-visit_all w (v ∷ vs) s =
    ground (arith, group-visit_all w vs (visit v s), includes-append w s.group (v ∷ []), eq_iff w v)

pending-visit_all :
    (w : Text) (vs : List Text) (s : Search)
    → includes w (visit_all vs s).pending
      ≡ (includes w s.pending || (includes w vs && not (includes w s.group)))
unfolding visit_all visit includes
pending-visit_all w [] s = ground arith
pending-visit_all w (v ∷ vs) s =
    ground
      (arith, pending-visit_all w vs (visit v s), includes-append w s.group (v ∷ []), eq_iff w v)

-- The known decisions that are not in the group.
unseen : (known group : List Text) → ℕ
unfolding includes
unseen [] group = 0
unseen (k ∷ ks) group = let rest = unseen ks group in if includes k group then rest else suc rest

unseen-le : (ks group : List Text) (v : Text) → unseen ks (group ++ v ∷ []) ≤ unseen ks group
unfolding unseen includes
unseen-le [] group v = omega arith
unseen-le (k ∷ ks) group v = ground (arith, unseen-le ks group v, includes-append k group (v ∷ []))

unseen-lt :
    (ks group : List Text) (v : Text)
    → includes v ks ≡ true
    → includes v group ≡ false
    → unseen ks (group ++ v ∷ []) < unseen ks group
unfolding unseen includes
unseen-lt [] group v h n = cc
unseen-lt (k ∷ ks) group v h n = ground (
  arith,
  unseen-lt ks group v,
  unseen-le ks group v,
  includes-append k group (v ∷ []),
  eq_iff v k,
  eq_iff k v,
)

-- A visit takes a decision from the unseen ones to the pending ones.
work-visit_all :
    (ks vs : List Text) (s : Search)
    → ((v : Text) → includes v vs ≡ true → includes v ks ≡ true)
    → unseen ks (visit_all vs s).group + length (visit_all vs s).pending
      ≤ unseen ks s.group + length s.pending
unfolding visit_all
work-visit_all ks [] s known = omega arith
work-visit_all ks (v ∷ vs) s known = omega (
  arith,
  work-visit_all ks vs (visit v s) (λ w h. known w (unfold includes in ground arith)),
  work-visit v s (known v (unfold includes in ground (arith, eq_iff v v))),
)
  where
    work-visit :
        (v : Text) (s : Search)
        → includes v ks ≡ true
        → unseen ks (visit v s).group + length (visit v s).pending
          ≤ unseen ks s.group + length s.pending
    work-visit v s h = unfold visit in ground (arith, unseen-lt ks s.group v)

includes_head : (v : Text) (vs : List Text) → includes v (v ∷ vs) ≡ true
unfolding includes
includes_head v vs = ground (arith, eq_iff v v)

includes-neighbours :
    (es : List (Text × Text)) (u v : Text) → includes v (neighbours es u) ≡ includes v (linked u es)
unfolding neighbours
includes-neighbours es u v = includes-unique v (linked u es)

pub pending_cases : (p : List Text) → (p ≡ []) ⊎ ((u : Text) × (rest : List Text) × (p ≡ u ∷ rest))
pending_cases [] = inl refl
pending_cases (u ∷ rest) = inr (u, rest, refl)

no_more : (u : Text) (p : List Text) → p ≡ [] → includes u p ≡ true → ⊥
unfolding includes
no_more u [] e h = ground arith
no_more u (x ∷ p) e h = ground arith

-- Every end of an edge is a known decision.
abbrev pub IsKnown : (known : List Text) → List (Text × Text) → Type 0
IsKnown known es = (u v : Text) → includes v (linked u es) ≡ true → includes v known ≡ true

module _ (es : List (Text × Text)) where
  -- One round, after `u` left the stack.
  abbrev expand : Search → Text → List Text → Search
  expand s u rest = visit_all (neighbours es u) (record s { pending = rest })

  record Inv (start : Text) (s : Search) : Type 0 where
    source : includes start s.group ≡ true
    queued : (v : Text) → includes v s.pending ≡ true → includes v s.group ≡ true
    sound : (v : Text) → includes v s.group ≡ true → Connected es start v
    closed :
        (u v : Text)
        → includes u s.group ≡ true
        → includes v (linked u es) ≡ true
        → (includes u s.pending ≡ true) ⊎ (includes v s.group ≡ true)

  grown-Connected :
      (start u : Text) (s : Search) (v : Text)
      → Connected es start u
      → ((w : Text) → includes w s.group ≡ true → Connected es start w)
      → (includes v s.group || includes v (neighbours es u)) ≡ true
      → Connected es start v
  grown-Connected start u s v to_u sound h = elim (Bool-cases (includes v s.group)) [
    | inl old ↦ sound v old
    | inr new ↦ step to_u (ground (arith, includes-neighbours es u v))
  ]

  Inv-expand :
      (start : Text) (s : Search) (u : Text) (rest : List Text)
      → s.pending ≡ u ∷ rest
      → Inv start s
      → Inv start (expand s u rest)
  Inv-expand start s u rest e h =
      let s' = record s { pending = rest } in
      let vs = neighbours es u in
      let grp = λ (w : Text). group-visit_all w vs s' in
      let pend = λ (w : Text). pending-visit_all w vs s' in
      let top : includes u s.pending ≡ true = rw e (includes_head u rest) in
      record {
        source = grp start ∙ rw h.source refl;
        queued = λ v q. ground (arith, grp v, pend v, h.queued v, in_rest v);
        sound = λ v m.
            grown-Connected start u s v (h.sound u (h.queued u top)) h.sound
              (ground (arith, grp v));
        closed = λ x v m l. ground (
          arith,
          grp x,
          grp v,
          pend x,
          h.closed x v,
          in_pending x,
          includes-neighbours es u v,
          eq_iff x u,
        );
      }
    where
      in_rest : (v : Text) → includes v rest ≡ true → includes v s.pending ≡ true
      in_rest v q = rw e (unfold includes in ground (arith))

      in_pending : (x : Text) → includes x s.pending ≡ (x == u || includes x rest)
      in_pending x = rw e (unfold includes in refl)

  -- What an invariant says of a walk that ends.
  walk-Inv :
      (start : Text) (fuel : ℕ) (s : Search) (group : List Text)
      → Inv start s
      → walk es fuel s ≡ some group
      → (t : Search) × Inv start t × (t.pending ≡ []) × (t.group ≡ group)
  unfolding walk
  walk-Inv start zero s group i h = elim (pending_cases s.pending) [
    | inl e ↦ (s, i, e, ground arith)
    | inr (u, rest, e) ↦ absurd (ground arith)
  ]
  walk-Inv start (suc fuel) s group i h = elim (pending_cases s.pending) [
    | inl e ↦ (s, i, e, ground arith)
    | inr (u, rest, e) ↦
        walk-Inv start fuel (expand s u rest) group (Inv-expand start s u rest e i)
          (rw (e, walk) at h)
  ]

  -- Each round takes one decision off, so as many rounds as there are decisions are enough.
  walk_ends :
      (known : List Text) (fuel : ℕ) (s : Search)
      → IsKnown known es
      → unseen known s.group + length s.pending ≤ fuel
      → (group : List Text) × (walk es fuel s ≡ some group)
  unfolding walk
  walk_ends known zero s k le = elim (pending_cases s.pending) [
    | inl e ↦ (s.group, rw (e, walk) refl)
    | inr (u, rest, e) ↦ absurd (omega (arith, ap length e))
  ]
  walk_ends known (suc fuel) s k le = elim (pending_cases s.pending) [
    | inl e ↦ (s.group, rw (e, walk) refl)
    | inr (u, rest, e) ↦
        let (group, ends) = walk_ends known fuel (expand s u rest) k (
          omega (
            arith,
            work-visit_all known (neighbours es u) (record s { pending = rest })
                (λ v h. k u v (rw (← includes-neighbours es u v) h)),
            ap length e,
          )) in
        (group, rw (e, walk) ends)
  ]

  complete :
      (start : Text) (t : Search)
      → Inv start t
      → t.pending ≡ []
      → {v : Text} → Connected es start v
      → includes v t.group ≡ true
  complete start t i e here = i.source
  complete start t i e (step {u} {v} p l) = elim (i.closed u v (complete start t i e p) l) [
    | inl waiting ↦ absurd (no_more u t.pending e waiting)
    | inr m ↦ m
  ]

unseen_nil : (ks : List Text) → unseen ks [] ≡ length ks
unfolding unseen includes
unseen_nil [] = refl
unseen_nil (k ∷ ks) = omega (arith, unseen_nil ks)

Inv-start :
    (es : List (Text × Text)) (start : Text)
    → Inv es start (record { group = start ∷ []; pending = start ∷ [] })
unfolding includes
Inv-start es start = record {
  source = ground (arith, eq_iff start start);
  queued = λ v q. q;
  sound = λ v m. rw ((eq_iff v start).0 (ground arith)) here;
  closed = λ u v m l. inl m;
}

-- The walk from a known decision ends within as many rounds as there are decisions, and its group
-- is exactly the decisions that are connected with the start.
pub group_decides :
    (es : List (Text × Text)) (known : List Text) (start : Text)
    → IsKnown known es
    → includes start known ≡ true
    → (group : List Text) × (group_of es (length known) start ≡ some group)
      × ((v : Text) → (includes v group ≡ true) ↔ Connected es start v)
unfolding group_of
group_decides es known start k h =
    let s : Search = record { group = start ∷ []; pending = start ∷ [] } in
    let (group, ends) =
      walk_ends es known (length known) s k
        (omega (arith, unseen-lt known [] start h refl, unseen_nil known)) in
    let (t, inv, empty, same) =
      walk-Inv es start (length known) s group (Inv-start es start) ends in
    (
      group,
      ends,
      λ v. (λ m. inv.sound v (rw same m), λ c. rw (← same) (complete es start t inv empty c)),
    )
