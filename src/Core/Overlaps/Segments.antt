-- ===== src/Core/Overlaps/Segments.antt =====
-- A glob covers by whole path segments.
use mathlib.Core.List.{append-nil, append_assoc}
use agents_can_communicate.Base.{
  ℕ, ◌≡◌, ◌↔◌, ◌⊎◌, inl, inr, refl, sym, ap, ◌∙◌, Bool, true, ◌||◌, List, [], ◌∷◌, ◌++◌, arith,
  Text, ◌==◌, eq_iff, eqb, starts_with, starts_with-append, starts_with_sound, Bool-cases,
}
use agents_can_communicate.Protocol.Resources.{slash, prepend, split_slash, join_slash}
use agents_can_communicate.Protocol.Resources.Spellings.{split_slash-cons, split_slash-append}
use agents_can_communicate.Core.Overlaps.{is_within}

prepend_join :
    (c : ℕ) (w : Text) (ws : List Text) → join_slash (prepend c (w ∷ ws)) ≡ c ∷ join_slash (w ∷ ws)
unfolding join_slash prepend
prepend_join c w [] = refl
prepend_join c w (v ∷ ws) = refl

-- Joining the segments of a path gives the path.
pub join_slash-split_slash : (v : Text) → join_slash (split_slash v) ≡ v
unfolding join_slash split_slash prepend
join_slash-split_slash [] = refl
join_slash-split_slash (c ∷ rest) =
    let (w, ws, e) = split_slash-cons rest in
    elim (Bool-cases (eqb c slash)) [
      | inl s ↦ rw (s, e) (ground (arith, ap join_slash e, join_slash-split_slash rest))
      | inr s ↦
          rw (s, e)
            (prepend_join c w ws
              ∙ ap (λ (t : Text). c ∷ t) (ap join_slash (sym e) ∙ join_slash-split_slash rest))
    ]

join_slash-append :
    (w : Text) (ws : List Text) (x : Text) (xs : List Text)
    → join_slash ((w ∷ ws) ++ x ∷ xs) ≡ join_slash (w ∷ ws) ++ slash ∷ join_slash (x ∷ xs)
unfolding join_slash
join_slash-append w [] x xs = refl
join_slash-append w (v ∷ ws) x xs =
    rw (join_slash-append v ws x xs) (sym (append_assoc w (slash ∷ join_slash (v ∷ ws)) _))

-- `directory/rest` is what a path in a directory looks like.
within_cases :
    (directory plain : Text)
    → is_within directory plain ≡ true
    → (plain ≡ directory) ⊎ (starts_with plain (directory ++ slash ∷ []) ≡ true)
unfolding is_within
within_cases d p h = elim (Bool-cases (p == d)) [
  | inl e ↦ inl ((eq_iff p d).0 e)
  | inr e ↦ inr (ground arith)
]

-- The segments of one path are the first segments of another.
abbrev pub IsSegmentPrefix : List Text → List Text → Type 0
IsSegmentPrefix xs ys = (rest : List Text) × (ys ≡ xs ++ rest)

within-segments :
    (directory plain : Text)
    → is_within directory plain ≡ true
    → IsSegmentPrefix (split_slash directory) (split_slash plain)
within-segments d p h = elim (within_cases d p h) [
  | inl e ↦ ([], ap split_slash e ∙ sym (append-nil (split_slash d)))
  | inr e ↦
      let (q, f) = starts_with_sound p (d ++ slash ∷ []) e in
      (split_slash q, ap split_slash (f ∙ append_assoc d (slash ∷ []) q) ∙ split_slash-append d q)
]

-- A path whose segments begin with those of a directory, and go on.
below_directory :
    (directory plain x : Text) (xs : List Text)
    → split_slash plain ≡ split_slash directory ++ x ∷ xs
    → plain ≡ (directory ++ slash ∷ []) ++ join_slash (x ∷ xs)
below_directory d p x xs e =
    let (w, ws, f) = split_slash-cons d in
    sym (join_slash-split_slash p)
    ∙ ap join_slash (e ∙ ap (λ (l : List Text). l ++ x ∷ xs) f)
    ∙ join_slash-append w ws x xs
    ∙ ap (λ (t : Text). t ++ slash ∷ join_slash (x ∷ xs))
        (ap join_slash (sym f) ∙ join_slash-split_slash d)
    ∙ sym (append_assoc d (slash ∷ []) (join_slash (x ∷ xs)))

or_true : (a b : Bool) → b ≡ true → (a || b) ≡ true
or_true a b h = ground arith

segments-within :
    (directory plain : Text)
    → IsSegmentPrefix (split_slash directory) (split_slash plain)
    → is_within directory plain ≡ true
unfolding is_within
segments-within d p ([], e) = ground (arith, eq_iff p d, same)
  where
    same : p ≡ d
    same =
        sym (join_slash-split_slash p)
        ∙ ap join_slash (e ∙ append-nil (split_slash d))
        ∙ join_slash-split_slash d
segments-within d p (x ∷ xs, e) =
    or_true (p == d) _
      (rw (below_directory d p x xs e) (starts_with-append (d ++ slash ∷ []) (join_slash (x ∷ xs))))

-- A path is in a directory exactly where the segments of the directory are the first segments of
-- the path.
pub is_within_iff_segments :
    (directory plain : Text)
    → (is_within directory plain ≡ true)
      ↔ IsSegmentPrefix (split_slash directory) (split_slash plain)
is_within_iff_segments d p = (within-segments d p, segments-within d p)
