-- ===== src/Protocol/Resources/Spellings.antt =====
-- Different spellings of one path have one normal form.
use mathlib.Core.List.{reverse}
use agents_can_communicate.Base.{
  ℕ, ◌≡◌, refl, sym, ap, ◌∙◌, false, not, List, [], ◌∷◌, ◌++◌, Text, codes, ◌==◌, if◌then◌else◌,
  eqb, Bool-cases, inl, inr,
}
use agents_can_communicate.Protocol.Resources.{
  slash, prepend, split_slash, join_slash, can_climb, take_segment, take_segments, normalise_path,
}
use agents_can_communicate.Protocol.Resources.Paths.{
  IsSegment, dots, split_slash-segment, take_segments-append,
}

prepend-append :
    (c : ℕ) (w : Text) (ws vs : List Text) → prepend c ((w ∷ ws) ++ vs) ≡ prepend c (w ∷ ws) ++ vs
unfolding prepend
prepend-append c w ws vs = refl

-- `split` never returns an empty list.
pub split_slash-cons : (v : Text) → (w : Text) × (ws : List Text) × (split_slash v ≡ w ∷ ws)
unfolding split_slash prepend
split_slash-cons [] = ([], [], refl)
split_slash-cons (c ∷ rest) =
    let (w, ws, e) = split_slash-cons rest in
    elim (Bool-cases (eqb c slash)) [
      | inl s ↦ ([], split_slash rest, rw s)
      | inr s ↦ (c ∷ w, ws, rw s (rw e))
    ]

pub split_slash-append :
    (u v : Text) → split_slash (u ++ slash ∷ v) ≡ split_slash u ++ split_slash v
unfolding split_slash
split_slash-append [] v = refl
split_slash-append (c ∷ rest) v =
    let (w, ws, e) = split_slash-cons rest in
    elim (Bool-cases (eqb c slash)) [
      | inl s ↦ rw s (ap (λ (r : List Text). [] ∷ r) (split_slash-append rest v))
      | inr s ↦ rw s (rw (split_slash-append rest v) (rw e (prepend-append c w ws (split_slash v))))
    ]

-- Reading a path with a separator is reading what stands before it, then what stands after it.
take_segments-slash :
    (stack : List Text) (u v : Text)
    → take_segments stack (split_slash (u ++ slash ∷ v))
      ≡ take_segments (take_segments stack (split_slash u)) (split_slash v)
take_segments-slash stack u v =
    ap (take_segments stack) (split_slash-append u v)
    ∙ take_segments-append stack (split_slash u) (split_slash v)

-- One plain segment in the middle of a path.
take_segments-middle :
    (stack : List Text) (u s v : Text)
    → IsSegment s
    → take_segments stack (split_slash (u ++ slash ∷ (s ++ slash ∷ v)))
      ≡ take_segments (take_segment (take_segments stack (split_slash u)) s) (split_slash v)
unfolding take_segments
take_segments-middle stack u s v h =
    take_segments-slash stack u (s ++ slash ∷ v)
    ∙ take_segments-slash (take_segments stack (split_slash u)) s v
    ∙ ap
        (λ (ws : List Text).
          take_segments (take_segments (take_segments stack (split_slash u)) ws) (split_slash v))
        (split_slash-segment s h)

module _ (u v : Text) where
  abbrev between : Text → Text
  between s = u ++ slash ∷ (s ++ slash ∷ v)

  empty_segment : normalise_path (between []) ≡ normalise_path (u ++ slash ∷ v)
  unfolding normalise_path take_segment
  empty_segment = rw (take_segments-middle [] u [] v tt, take_segments-slash [] u v)

  dot_segment : normalise_path (between (codes ".")) ≡ normalise_path (u ++ slash ∷ v)
  unfolding normalise_path take_segment ◌==◌
  dot_segment = rw (take_segments-middle [] u (codes ".") v (refl, tt), take_segments-slash [] u v)

-- A plain segment is one that names something: not empty, not `.` and not `..`.
pub record IsPlain (s : Text) : Type 0 where
  pub segment : IsSegment s
  pub nonempty : (s == []) ≡ false
  pub no_dot : (s == codes ".") ≡ false
  pub no_dots : (s == dots) ≡ false

-- A plain segment is pushed, and a `..` after it takes it away again.
enter_and_leave :
    (stack : List Text) (s : Text) → IsPlain s → take_segment (take_segment stack s) dots ≡ stack
unfolding take_segment
enter_and_leave stack s p =
    rw (p.nonempty, p.no_dot, p.no_dots) (unfold can_climb ◌==◌ in leave s stack p.no_dots)
  where
    leave :
        (s : Text) (stack : List Text)
        → (s == dots) ≡ false
        → (if not (s == dots) then stack else (dots ∷ s ∷ stack)) ≡ stack
    leave s stack h = rw h

climbing :
    (u v s : Text)
    → IsPlain s
    → normalise_path (u ++ slash ∷ (s ++ slash ∷ (dots ++ slash ∷ v)))
      ≡ normalise_path (u ++ slash ∷ v)
unfolding normalise_path take_segments
climbing u v s p =
    let entered = take_segment (take_segments [] (split_slash u)) s in
    ap (λ (stack : List Text). join_slash (reverse stack))
      (take_segments-middle [] u s (dots ++ slash ∷ v) p.segment
        ∙ take_segments-slash entered dots v
        ∙ ap (λ (ws : List Text). take_segments (take_segments entered ws) (split_slash v))
            (split_slash-segment dots (refl, (refl, tt)))
        ∙ ap (λ (stack : List Text). take_segments stack (split_slash v))
            (enter_and_leave (take_segments [] (split_slash u)) s p)
        ∙ sym (take_segments-slash [] u v))

-- The spellings `u//v`, `u/./v` and `u/s/../v`, for a plain segment `s`, have the normal form of
-- `u/v`.
pub normalise_path_spellings :
    (u v s : Text)
    → IsPlain s
    → (normalise_path (u ++ slash ∷ slash ∷ v) ≡ normalise_path (u ++ slash ∷ v))
      × (normalise_path (u ++ slash ∷ (codes "." ++ slash ∷ v)) ≡ normalise_path (u ++ slash ∷ v))
      × (normalise_path (u ++ slash ∷ (s ++ slash ∷ (dots ++ slash ∷ v)))
          ≡ normalise_path (u ++ slash ∷ v))
normalise_path_spellings u v s p = (empty_segment u v, dot_segment u v, climbing u v s p)
