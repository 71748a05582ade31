-- ===== src/Core/Overlaps.antt =====
-- `overlaps` of packages/core/src/claims.mjs: when two resources name a common thing.
pub mod Segments
mod Examples
use agents_can_communicate.Base.{
  ℕ, ◌≡◌, refl, Bool, true, false, not, ◌&&◌, ◌||◌, Option, none, some, List, [], ◌∷◌, ◌++◌, arith,
  Text, codes, ◌==◌, eq_iff, eq_comm, if◌then◌else◌, starts_with,
}
use agents_can_communicate.Protocol.Resources.{slash, strip_glob, split_colon}

pub record Parts : Type 0 where
  pub scheme : Text
  pub rest : Text

-- `resource.slice(0, -1)`
all_but_last : Text → Text
all_but_last [] = []
all_but_last (c ∷ []) = []
all_but_last (c ∷ d ∷ rest) = c ∷ all_but_last (d ∷ rest)

-- `split`: with no colon `indexOf` is -1, and the slices are all but the last code unit, and all.
unfoldable pub split : Text → Parts
unfolding all_but_last
split resource = elim (split_colon resource) [
  | none ↦ record { scheme = all_but_last resource; rest = resource }
  | some (scheme, rest) ↦ record { scheme = scheme; rest = rest }
]

-- A plain path is in a directory: it is the directory, or it begins with the directory and a slash.
unfoldable pub is_within : Text → Text → Bool
is_within directory plain = plain == directory || starts_with plain (directory ++ slash ∷ [])

-- `covers(glob, plain)`, of the path parts.
unfoldable pub covers : Text → Text → Bool
covers globbed plain = elim (strip_glob globbed) [
  | none ↦ false
  | some directory ↦ is_within directory plain
]

unfoldable pub overlaps : Text → Text → Bool
overlaps left right =
    if left == right
    then true
    else if not ((split left).scheme == (split right).scheme)
    then false
    else covers (split left).rest (split right).rest || covers (split right).rest (split left).rest

-- Overlapping does not depend on which of the two was there first.
pub overlaps_comm : (left right : Text) → overlaps left right ≡ overlaps right left
unfolding overlaps
overlaps_comm left right = ground (
  arith,
  eq_iff left right,
  eq_iff right left,
  eq_iff (split left).scheme (split right).scheme,
  eq_iff (split right).scheme (split left).scheme,
)

pub overlaps_refl : (resource : Text) → overlaps resource resource ≡ true
unfolding overlaps
overlaps_refl r = ground (arith, eq_iff r r)
