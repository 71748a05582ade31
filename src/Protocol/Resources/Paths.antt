-- ===== src/Protocol/Resources/Paths.antt =====
-- The normal form of a path: what `normalisePath` returns, and that it is a normal form.
use mathlib.Core.List.{reverse, reverse-cons}
use agents_can_communicate.Base.{
  ℕ, ◌≡◌, ◌⊎◌, inl, inr, refl, ap, ◌∙◌, Bool, true, false, ◌&&◌, ◌||◌, List, [], ◌∷◌, ◌++◌, arith,
  Text, codes, ◌==◌, eqb, All, Bool-cases,
}
use agents_can_communicate.Protocol.Resources.{
  slash, prepend, split_slash, join_slash, can_climb, take_segment, take_segments, normalise_path,
  pop,
}

-- A text with no slash in it.
abbrev pub IsSegment : Text → Type 0
IsSegment [] = Unit
IsSegment (c ∷ rest) = (eqb c slash ≡ false) × IsSegment rest

abbrev pub dots : Text
dots = codes ".."

-- A stack of segments, the last one first, that names a file in one way: no segment is empty or a
-- single dot, and a `..` has nothing but `..` below it.
abbrev pub IsNormal : List Text → Type 0
IsNormal [] = Unit
IsNormal (s ∷ below) =
    ((s == []) ≡ false)
    × ((s == codes ".") ≡ false)
    × IsSegment s
    × ((s == dots) ≡ true → can_climb below ≡ false)
    × IsNormal below

prepend-IsSegment :
    (c : ℕ) (ws : List Text) → eqb c slash ≡ false → All IsSegment ws → All IsSegment (prepend c ws)
unfolding prepend
prepend-IsSegment c [] h a = ((h, tt), tt)
prepend-IsSegment c (w ∷ ws) h a = ((h, a.0), a.1)

split_slash-IsSegment : (v : Text) → All IsSegment (split_slash v)
unfolding split_slash
split_slash-IsSegment [] = (tt, tt)
split_slash-IsSegment (c ∷ rest) = elim (Bool-cases (eqb c slash)) [
  | inl e ↦ rw e (tt, split_slash-IsSegment rest)
  | inr e ↦ rw e (prepend-IsSegment c (split_slash rest) e (split_slash-IsSegment rest))
]

pop-IsNormal : (stack : List Text) → IsNormal stack → IsNormal (pop stack)
pop-IsNormal [] n = tt
pop-IsNormal (t ∷ below) n = n.4

-- What one segment does to the stack.
abbrev Takes : List Text → Text → List Text → Type 0
Takes stack s taken =
    (taken ≡ stack)
    ⊎ (taken ≡ pop stack)
    ⊎ ((taken ≡ s ∷ stack)
        × ((s == []) ≡ false)
        × ((s == codes ".") ≡ false)
        × ((s == dots && can_climb stack) ≡ false))

take_segment-Takes : (stack : List Text) (s : Text) → Takes stack s (take_segment stack s)
unfolding take_segment
take_segment-Takes stack s = elim (Bool-cases (s == [] || s == codes ".")) [
  | inl e ↦ rw e (inl refl)
  | inr e ↦ elim (Bool-cases (s == dots && can_climb stack)) [
    | inl f ↦ rw (e, f) (inr (inl refl))
    | inr f ↦ rw (e, f) (inr (inr (refl, ground arith, ground arith, refl)))
  ]
]

no_climb : (a b : Bool) → (a && b) ≡ false → a ≡ true → b ≡ false
no_climb a b h e = ground arith

take_segment-IsNormal :
    (stack : List Text) (s : Text) → IsNormal stack → IsSegment s → IsNormal (take_segment stack s)
take_segment-IsNormal stack s n h = elim (take_segment-Takes stack s) [
  | inl e ↦ rw e n
  | inr (inl e) ↦ rw e (pop-IsNormal stack n)
  | inr (inr (e, empty, dot, climb)) ↦ rw e (empty, dot, h, no_climb _ _ climb, n)
]

take_segments-IsNormal :
    (stack segments : List Text)
    → IsNormal stack
    → All IsSegment segments
    → IsNormal (take_segments stack segments)
unfolding take_segments
take_segments-IsNormal stack [] n a = n
take_segments-IsNormal stack (s ∷ rest) n a =
    take_segments-IsNormal (take_segment stack s) rest (take_segment-IsNormal stack s n a.0) a.1

-- A segment that is normal above a normal stack is pushed.
take_segment-push :
    (s : Text) (below : List Text) → IsNormal (s ∷ below) → take_segment below s ≡ s ∷ below
unfolding take_segment
take_segment-push s below n = ground (arith, n.3)

pub take_segments-append :
    (stack xs ys : List Text)
    → take_segments stack (xs ++ ys) ≡ take_segments (take_segments stack xs) ys
unfolding take_segments
take_segments-append stack [] ys = refl
take_segments-append stack (x ∷ xs) ys = take_segments-append (take_segment stack x) xs ys

-- A normal stack is read back as it is.
take_segments-reverse :
    (stack : List Text) → IsNormal stack → take_segments [] (reverse stack) ≡ stack
unfolding take_segments
take_segments-reverse [] n = refl
take_segments-reverse (s ∷ below) n =
    rw
      (
        reverse-cons s below,
        take_segments-append [] (reverse below) (s ∷ []),
        take_segments-reverse below n.4,
      )
      (take_segment-push s below n)

-- `split` undoes `join` of segments that hold no slash.
pub split_slash-segment : (w : Text) → IsSegment w → split_slash w ≡ w ∷ []
unfolding split_slash prepend
split_slash-segment [] h = refl
split_slash-segment (c ∷ rest) h = rw h.0 (rw (split_slash-segment rest h.1))

split_slash-join_cons :
    (w : Text) (v : Text) → IsSegment w → split_slash (w ++ slash ∷ v) ≡ w ∷ split_slash v
unfolding split_slash prepend
split_slash-join_cons [] v h = refl
split_slash-join_cons (c ∷ rest) v h = rw h.0 (rw (split_slash-join_cons rest v h.1))

pub split_slash-join_slash :
    (w : Text) (ws : List Text)
    → All IsSegment (w ∷ ws)
    → split_slash (join_slash (w ∷ ws)) ≡ w ∷ ws
unfolding join_slash
split_slash-join_slash w [] a = split_slash-segment w a.0
split_slash-join_slash w (v ∷ ws) a =
    split_slash-join_cons w (join_slash (v ∷ ws)) a.0
    ∙ ap (λ (r : List Text). w ∷ r) (split_slash-join_slash v ws a.1)

pub IsNormal-stack : (v : Text) → IsNormal (take_segments [] (split_slash v))
IsNormal-stack v = take_segments-IsNormal [] (split_slash v) tt (split_slash-IsSegment v)

IsNormal-All : (stack : List Text) → IsNormal stack → All IsSegment stack
IsNormal-All [] n = tt
IsNormal-All (s ∷ below) n = (n.2, IsNormal-All below n.4)

All-append : (xs ys : List Text) → All IsSegment xs → All IsSegment ys → All IsSegment (xs ++ ys)
All-append [] ys a b = b
All-append (x ∷ xs) ys a b = (a.0, All-append xs ys a.1 b)

All-reverse : (xs : List Text) → All IsSegment xs → All IsSegment (reverse xs)
All-reverse [] a = tt
All-reverse (x ∷ xs) a =
    rw (reverse-cons x xs) (All-append (reverse xs) (x ∷ []) (All-reverse xs a.1) (a.0, tt))

-- A path made of the segments of a normal stack is read back as that stack.
segments-join :
    (segments : List Text)
    → All IsSegment segments
    → take_segments [] (split_slash (join_slash segments)) ≡ take_segments [] segments
unfolding split_slash join_slash take_segments take_segment
segments-join [] a = refl
segments-join (w ∷ ws) a = ap (take_segments []) (split_slash-join_slash w ws a)

pub stack-join :
    (stack : List Text)
    → IsNormal stack
    → take_segments [] (split_slash (join_slash (reverse stack))) ≡ stack
stack-join stack n =
    segments-join (reverse stack) (All-reverse stack (IsNormal-All stack n))
    ∙ take_segments-reverse stack n

-- A normalised path is normal: normalising it again changes nothing.
pub normalise_path_idem : (v : Text) → normalise_path (normalise_path v) ≡ normalise_path v
unfolding normalise_path
normalise_path_idem v =
    ap (λ (s : List Text). join_slash (reverse s)) (stack-join _ (IsNormal-stack v))
