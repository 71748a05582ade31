-- ===== src/Core/Decisions/Standing.antt =====
-- Every decision has a status, and what the status says of it.
use agents_can_communicate.Base.{
  ◌≡◌, ◌↔◌, refl, ◌∙◌, Bool, true, false, not, ◌&&◌, some, List, [], ◌∷◌, arith, Text, ◌==◌, eq_iff,
  if◌then◌else◌, includes, any, filter, distinct, length, Bool-cases, inl, inr,
}
use agents_can_communicate.Base.Table.{Table, lookup}
use agents_can_communicate.Protocol.Messages.{Message}
use agents_can_communicate.Core.Decisions.{
  decisions_of, keys, edges, is_replaced, State, Status, is_withdrawal, heads, has_decision,
  state_of, status_of, decision_view,
}
use agents_can_communicate.Core.Decisions.Distinct.{
  includes-filter, distinct-filter, IsSole, only_one-IsSole, one-IsSole,
}
use agents_can_communicate.Core.Decisions.Walks.{Connected, here, step, IsKnown}
use agents_can_communicate.Core.Decisions.Marking.{IsStatus, mark_all_lem}
use agents_can_communicate.Core.Decisions.Naming.{edges-IsKnown, named_in, is_replaced-edges}

-- A decision that is connected with this one, and that no decision names.
abbrev pub IsHead : Table Message → List (Text × Text) → (id : Text) → Text → Type 0
IsHead t es id h = Connected es id h × (named_in t h ≡ false)

-- It is the only one.
abbrev pub IsSoleHead : Table Message → List (Text × Text) → (id : Text) → Text → Type 0
IsSoleHead t es id h = IsHead t es id h × ((k : Text) → IsHead t es id k → k ≡ h)

-- What a status says, given which decisions are connected.
pub record Stands (t : Table Message) (es : List (Text × Text)) (id : Text) (st : Status)
    : Type 0 where
  -- It is a head exactly where no decision names it.
  pub headship : st.is_head ≡ not (named_in t id)
  -- A head that is no withdrawal is current, a head that is one is withdrawn.
  pub currency :
      st.is_head ≡ true → st.state ≡ (if is_withdrawal t id then State.withdrawn else State.current)
  -- One that is named is superseded where some head among the connected ones decides, and
  -- withdrawn where all of them withdraw.
  pub succession :
      st.is_head ≡ false
      → (st.state ≡ State.superseded)
        ↔ ((h : Text) × Connected es id h × (named_in t h ≡ false) × (is_withdrawal t h ≡ false))
  -- The heads among the connected decisions are listed, each once, and counted.
  pub count :
      (hs : List Text) × (distinct hs ≡ true)
      × ((h : Text) → (includes h hs ≡ true) ↔ IsHead t es id h)
      × (st.head_count ≡ length hs)
  -- There is no conflict exactly where one of them is the only one, and this one is then current.
  pub unrest : (st.conflicted ≡ false) ↔ ((h : Text) × IsSoleHead t es id h)
  pub lead : (h : Text) → (st.current_message_id ≡ some h) ↔ IsSoleHead t es id h

any-filter_witness :
    (p q : Text → Bool) (xs : List Text)
    → any p (filter q xs) ≡ true
    → (a : Text) × (includes a xs ≡ true) × (q a ≡ true) × (p a ≡ true)
unfolding any filter includes
any-filter_witness p q [] h = absurd (cc)
any-filter_witness p q (x ∷ xs) h = elim (Bool-cases (q x && p x)) [
  | inl e ↦ (x, ground (arith, eq_iff x x), ground arith, ground arith)
  | inr n ↦ let (a, m, f, g) = any-filter_witness p q xs (ground arith) in (a, ground arith, f, g)
]

any-filter_intro :
    (p q : Text → Bool) (xs : List Text) (a : Text)
    → includes a xs ≡ true
    → q a ≡ true
    → p a ≡ true
    → any p (filter q xs) ≡ true
unfolding any filter includes
any-filter_intro p q [] a m f g = cc
any-filter_intro p q (x ∷ xs) a m f g = elim (Bool-cases (a == x)) [
  | inl e ↦
      let f' = rw ((eq_iff a x).0 e) at f in let g' = rw ((eq_iff a x).0 e) at g in ground arith
  | inr n ↦ ground (arith, any-filter_intro p q xs a)
]

module _ (known : List Text) (t : Table Message) where
  Connected-known :
      IsKnown known (edges known t)
      → (id : Text) → includes id known ≡ true
      → {v : Text} → Connected (edges known t) id v
      → includes v known ≡ true
  Connected-known k id m here = m
  Connected-known k id m (step {u} {v} p l) = k u v l

  replaced-known :
      (v : Text) → includes v known ≡ true → is_replaced (edges known t) v ≡ named_in t v
  replaced-known v m = is_replaced-edges known t v ∙ rw m refl

  -- What the group decides, in terms of the connected decisions.
  has_decision_iff :
      (id : Text) (group : List Text)
      → IsKnown known (edges known t)
      → includes id known ≡ true
      → ((v : Text) → (includes v group ≡ true) ↔ Connected (edges known t) id v)
      → (has_decision t (edges known t) group ≡ true) ↔ (
          (h : Text) × Connected (edges known t) id h
          × (named_in t h ≡ false)
          × (is_withdrawal t h ≡ false))
  unfolding has_decision heads
  has_decision_iff id group k m spec = (
    λ d.
        let (h, in_it, f, g) = any-filter_witness _ _ group d in
        let c = (spec h).0 in_it in
        (h, c, ground (arith, replaced-known h (Connected-known k id m c)), ground arith),
    λ (h, c, f, g).
        any-filter_intro _ _ group h ((spec h).1 c)
          (ground (arith, replaced-known h (Connected-known k id m c))) (ground arith),
  )

  -- The heads of the group are the heads among the connected decisions.
  heads_iff :
      (id : Text) (group : List Text)
      → IsKnown known (edges known t)
      → includes id known ≡ true
      → ((v : Text) → (includes v group ≡ true) ↔ Connected (edges known t) id v)
      → (h : Text)
      → (includes h (heads t (edges known t) group) ≡ true) ↔ IsHead t (edges known t) id h
  unfolding heads
  heads_iff id group k m spec h =
      let split = includes-filter (λ (v : Text). not (is_replaced (edges known t) v)) h group in
      (
        λ e.
            let c = (spec h).0 (ground arith) in
            (c, ground (arith, replaced-known h (Connected-known k id m c))),
        λ (c, n).
            let i = (spec h).1 c in ground (arith, replaced-known h (Connected-known k id m c)),
      )

  heads-distinct :
      (group : List Text) → distinct group ≡ true → distinct (heads t (edges known t) group) ≡ true
  unfolding heads
  heads-distinct group d = distinct-filter _ group d

  IsSole-IsSoleHead :
      (id : Text) (hs : List Text)
      → ((h : Text) → (includes h hs ≡ true) ↔ IsHead t (edges known t) id h)
      → (h : Text) → IsSole hs h ↔ IsSoleHead t (edges known t) id h
  IsSole-IsSoleHead id hs spec h = (
    λ (m, sole). ((spec h).0 m, λ k c. sole k ((spec k).1 c)),
    λ (c, sole). ((spec h).1 c, λ k m. sole k ((spec k).0 m)),
  )

  state-superseded :
      (group : List Text) (id : Text)
      → is_replaced (edges known t) id ≡ true
      → (state_of t (edges known t) group id ≡ State.superseded)
        ↔ (has_decision t (edges known t) group ≡ true)
  unfolding state_of
  state-superseded group id h = (λ e. ground arith, λ e. ground arith)

  IsStatus-Stands :
      (id : Text) (st : Status)
      → IsKnown known (edges known t)
      → includes id known ≡ true
      → IsStatus t (edges known t) id st
      → Stands t (edges known t) id st
  unfolding status_of
  IsStatus-Stands id st k m (group, same, dist, spec) = record {
    headship = rw same (rw (replaced-known id m) refl);
    currency = λ h. rw same (unfold state_of in ground (arith));
    succession = λ h.
        let r : is_replaced (edges known t) id ≡ true = ground arith in
        let (to, from) = state-superseded group id r in
        let (out, back) = has_decision_iff id group k m spec in
        (λ e. out (to (rw same at e)), λ w. rw same (from (back w)));
    count = (
      heads t (edges known t) group,
      heads-distinct group dist,
      heads_iff id group k m spec,
      rw same refl,
    );
    unrest =
        let (to, from) = one-IsSole (heads t (edges known t) group) (heads-distinct group dist) in
        (
          λ e.
              let (h, s) = to (rw same at e) in
              (
                h,
                (IsSole-IsSoleHead id (heads t (edges known t) group) (heads_iff id group k m spec)
                      h).0
                    s,
              ),
          λ (h, s). rw same (
              from (
                h,
                (IsSole-IsSoleHead id (heads t (edges known t) group) (heads_iff id group k m spec)
                      h).1
                    s,
              )),
        );
    lead = λ h.
        let (to, from) =
          only_one-IsSole (heads t (edges known t) group) h (heads-distinct group dist) in
        (
          λ e.
              (IsSole-IsSoleHead id (heads t (edges known t) group) (heads_iff id group k m spec)
                  h).0
                (to (rw same at e)),
          λ s. rw same (
              from (
                (IsSole-IsSoleHead id (heads t (edges known t) group) (heads_iff id group k m spec)
                    h).1
                  s)),
        );
  }

-- `decisionView` returns, and gives each decision a status: it is a head exactly where no decision
-- names it; a head is current, or withdrawn if it is a withdrawal; one that is named is superseded
-- exactly where some head among the decisions connected with it is no withdrawal; the heads
-- among these are counted, each once; no conflict is reported exactly where one of them is the
-- only one; and the current message is exactly such a one.
pub decision_view-Stands :
    (messages : List Message)
    → (statuses : Table Status) × (decision_view messages ≡ some statuses)
      × ((id : Text)
          → includes id (keys (decisions_of messages)) ≡ true
          → (st : Status) × (lookup id statuses ≡ some st)
            × Stands
                (decisions_of messages)
                (edges (keys (decisions_of messages)) (decisions_of messages))
                id
                st)
unfolding decision_view
decision_view-Stands messages =
    let t = decisions_of messages in
    let known = keys t in
    let es = edges known t in
    let k = edges-IsKnown known t (λ v h. h) in
    let (statuses, ends, right, _, all) =
      mark_all_lem t es known known [] k (λ v h. h) (λ id st h. absurd (unfold lookup in cc)) in
    (
      statuses,
      ends,
      λ id m. let (st, h) = all id m in (st, h, IsStatus-Stands known t id st k m (right id st h)),
    )
