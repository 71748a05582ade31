-- ===== src/Core/Pages/Runs.antt =====
-- One page is a first part of what is selected, and names its last message where more is left.
use agents_can_communicate.Base.{
  ℕ, zero, suc, ◌<◌, ◌≡◌, refl, ap, ◌∙◌, Bool, true, false, Option, none, some, List, [], ◌∷◌, ◌++◌,
  map, arith, Text, length, length-append, ok, is_empty, Bool-cases, inl, inr,
}
use agents_can_communicate.Protocol.Messages.{Message}
use agents_can_communicate.Core.Pages.{nth, id_of, fill, next_of, page_of}

append_assoc {ℓ} : {A : Type ℓ} (xs ys zs : List A) → (xs ++ ys) ++ zs ≡ xs ++ (ys ++ zs)
append_assoc [] ys zs = refl
append_assoc (x ∷ xs) ys zs = ap (λ ts. x ∷ ts) (append_assoc xs ys zs)

length-map {ℓ κ} :
    {A : Type ℓ} {B : Type κ} (f : A → B) (xs : List A) → length (map f xs) ≡ length xs
length-map f [] = refl
length-map f (x ∷ xs) = ap suc (length-map f xs)

nth-length {ℓ} : {A : Type ℓ} (xs ys : List A) (y : A) → nth (length xs) (xs ++ y ∷ ys) ≡ some y
unfolding nth
nth-length [] ys y = refl
nth-length (x ∷ xs) ys y = nth-length xs ys y

-- Whose id the cursor is, where more is left.
abbrev pub next_after : Message → List Message → Option Text
next_after y [] = none
next_after y (r ∷ rest) = some y.message_id

module _ {ℓ} {A : Type ℓ} (id_before : Text → Text → Bool) (fits : List A → Text → Bool)
    (project : Message → A) where
  fill_runs :
      (limit : ℕ) (items : List A) (x : Message) (ms : List Message)
      → (init : List Message) × (y : Message) × (rest : List Message) × (x ∷ ms ≡ init ++ y ∷ rest)
        × (fill id_before fits project limit (items ++ project x ∷ []) ms
            ≡ items ++ map project (init ++ y ∷ []))
  unfolding fill
  fill_runs zero items x ms = ([], x, ms, refl, refl)
  fill_runs (suc limit) items x [] = ([], x, [], refl, refl)
  fill_runs (suc limit) items x (m ∷ ms) =
      elim (Bool-cases (fits ((items ++ project x ∷ []) ++ project m ∷ []) m.message_id)) [
        | inr e ↦ ([], x, m ∷ ms, refl, rw e refl)
        | inl e ↦
            let (init, y, rest, split, same) = fill_runs limit (items ++ project x ∷ []) m ms in
            (
              x ∷ init,
              y,
              rest,
              ap (λ ts. x ∷ ts) split,
              rw e (same ∙ append_assoc items (project x ∷ []) (map project (init ++ y ∷ []))),
            )
      ]

  length-shown :
      (init : List Message) (y : Message)
      → length (map project (init ++ y ∷ [])) ≡ suc (length init)
  length-shown init y =
      length-map project (init ++ y ∷ []) ∙ omega (arith, length-append init (y ∷ []))

  shown_any : (init : List Message) (y : Message) → is_empty (map project (init ++ y ∷ [])) ≡ false
  shown_any [] y = refl
  shown_any (x ∷ init) y = refl

  next_of-after :
      (init : List Message) (y : Message) (rest : List Message)
      → next_of id_before fits project (map project (init ++ y ∷ [])) (init ++ y ∷ rest)
        ≡ next_after y rest
  unfolding next_of id_of
  next_of-after init y [] = rw (length-shown init y, length-append init (y ∷ [])) (ground arith)
  next_of-after init y (r ∷ rest) =
      let more : suc (length init) < length (init ++ y ∷ r ∷ rest) =
        omega (arith, length-append init (y ∷ r ∷ rest)) in
      rw (length-shown init y) (ground (arith, nth-length init (r ∷ rest) y))

  -- A page with a message to show: what it shows, and where it goes on.
  pub page_of-runs :
      (limit : ℕ) (x : Message) (ms : List Message)
      → fits (project x ∷ []) x.message_id ≡ true
      → (init : List Message) × (y : Message) × (rest : List Message) × (x ∷ ms ≡ init ++ y ∷ rest)
        × (page_of id_before fits project (suc limit) (x ∷ ms)
            ≡ ok (record { items = map project (init ++ y ∷ []); next_cursor = next_after y rest }))
  unfolding page_of
  page_of-runs limit x ms alone =
      let (init, y, rest, split, same) = fill_runs limit [] x ms in
      let begun : fill id_before fits project (suc limit) [] (x ∷ ms)
          ≡ map project (init ++ y ∷ []) =
        unfold fill in (rw alone same) in
      let next : next_of id_before fits project (map project (init ++ y ∷ [])) (x ∷ ms)
          ≡ next_after y rest =
        ap (next_of id_before fits project (map project (init ++ y ∷ []))) split
        ∙ next_of-after init y rest in
      (init, y, rest, split, rw (begun, shown_any init y, next) refl)
