-- ===== src/Core/Bindings/Listed.antt =====
-- What the router may reach: the listing has exactly the endpoints of open sessions.
use mathlib.Core.List.{Memᴰ}
use mathlib.Core.List.Memᴰ
use agents_can_communicate.Base.{
  ℕ, ◌<◌, ◌≡◌, ◌↔◌, ◌⊎◌, inl, inr, Bool, true, Option, none, List, [], ◌∷◌, arith, Text, Bool-cases,
}
use agents_can_communicate.Base.Members.{Memᴰ-filter, filter-Memᴰ}
use agents_can_communicate.Base.Table.{Table, values}
use agents_can_communicate.Core.Records.{Session}
use agents_can_communicate.Core.Bindings.{
  Binding, list_bindings, current_bindings, in_session_order, insert_binding, is_current,
  participant_is,
}

module _ (before : Text → Text → Bool) where
  inserted :
      (b c : Binding) (bs : List Binding) → Memᴰ b (c ∷ bs) → Memᴰ b (insert_binding before c bs)
  unfolding insert_binding
  inserted b c [] i = i
  inserted b c (d ∷ ds) i = elim (Bool-cases (before d.session_id c.session_id)) [
    | inl e ↦ rw e (elim (Memᴰ.cases_cons i) [
      | inl q ↦ Memᴰ.tail (inserted b c ds (Memᴰ.head q))
      | inr j ↦ elim (Memᴰ.cases_cons j) [
        | inl q ↦ Memᴰ.head q
        | inr k ↦ Memᴰ.tail (inserted b c ds (Memᴰ.tail k))
      ]
    ])
    | inr e ↦ rw e i
  ]

  before_insertion :
      (b c : Binding) (bs : List Binding) → Memᴰ b (insert_binding before c bs) → Memᴰ b (c ∷ bs)
  unfolding insert_binding
  before_insertion b c [] i = i
  before_insertion b c (d ∷ ds) i = elim (Bool-cases (before d.session_id c.session_id)) [
    | inl e ↦ elim (Memᴰ.cases_cons (rw e at i)) [
      | inl q ↦ Memᴰ.tail (Memᴰ.head q)
      | inr j ↦ elim (Memᴰ.cases_cons (before_insertion b c ds j)) [
        | inl q ↦ Memᴰ.head q
        | inr k ↦ Memᴰ.tail (Memᴰ.tail k)
      ]
    ]
    | inr e ↦ rw e at i
  ]

  Memᴰ-in_session_order :
      (b : Binding) (bs : List Binding) → Memᴰ b (in_session_order before bs) ↔ Memᴰ b bs
  unfolding in_session_order
  Memᴰ-in_session_order b [] = (λ i. i, λ i. i)
  Memᴰ-in_session_order b (c ∷ cs) = (
    λ i. elim (Memᴰ.cases_cons (before_insertion b c (in_session_order before cs) i)) [
      | inl q ↦ Memᴰ.head q
      | inr j ↦ Memᴰ.tail ((Memᴰ-in_session_order b cs).0 j)
    ],
    λ i. inserted b c (in_session_order before cs) (elim (Memᴰ.cases_cons i) [
      | inl q ↦ Memᴰ.head q
      | inr j ↦ Memᴰ.tail ((Memᴰ-in_session_order b cs).1 j)
    ]),
  )

  -- `listDeliveryBindings` returns exactly the stored bindings that name an open session of their
  -- own generation and of the participant, that are not retired, and, unless expired ones are asked
  -- for, whose lease lasts beyond the given time.
  pub list_bindings_decides :
      (locate : Text → Option Session) (participant_id : Text) (now : ℕ) (include_expired : Bool)
      (t : Table Binding) (b : Binding)
      → Memᴰ b (list_bindings before locate participant_id now include_expired t) ↔ (
          Memᴰ b (values t)
          × (is_current (locate b.session_id) b.generation ≡ true)
          × (b.retired_at ≡ none)
          × (participant_is (locate b.session_id) participant_id ≡ true)
          × ((include_expired ≡ true) ⊎ (now < b.lease_until)))
  unfolding list_bindings current_bindings
  list_bindings_decides locate participant_id now include_expired t b = (
    λ i.
        let (j, h) = filter-Memᴰ _ b _ i in
        let (k, g) = filter-Memᴰ _ b _ ((Memᴰ-in_session_order b _).0 j) in
        (k, ground arith, ground arith, ground arith, ground arith),
    λ (k, c, r, q, l).
        Memᴰ-filter _ b _
          ((Memᴰ-in_session_order b _).1 (Memᴰ-filter _ b (values t) k (ground arith)))
          (ground arith),
  )
