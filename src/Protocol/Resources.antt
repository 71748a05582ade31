-- ===== src/Protocol/Resources.antt =====
-- packages/protocol/src/resources.mjs: one name for one file.
pub mod Paths
pub mod Spellings
use mathlib.Core.List.{reverse}
use mathlib.Core.Option
use agents_can_communicate.Base.{
  ℕ, ◌≡◌, refl, Bool, true, false, not, ◌&&◌, ◌||◌, Option, none, some, List, [], ◌∷◌, ◌++◌, arith,
  Text, codes, ◌==◌, if◌then◌else◌, eqb, is_empty, any, starts_with, Result, ok, err, Exit, require,
  ◌>>=◌, ◌>>◌, map, is_some,
}

abbrev pub slash : ℕ
slash = b'/'

-- `slashes`: every backslash becomes a slash.
unfoldable pub slashes : Text → Text
slashes = map (λ (c : ℕ). if eqb c b'\\' then slash else c)

-- One more code unit at the front of the first segment.
unfoldable pub prepend : ℕ → List Text → List Text
prepend c [] = (c ∷ []) ∷ []
prepend c (w ∷ ws) = (c ∷ w) ∷ ws

-- `value.split("/")`
unfoldable pub split_slash : Text → List Text
unfolding prepend
split_slash [] = [] ∷ []
split_slash (c ∷ rest) =
    let segments = split_slash rest in if eqb c slash then [] ∷ segments else prepend c segments

-- `segments.join("/")`
unfoldable pub join_slash : List Text → Text
join_slash [] = []
join_slash (w ∷ []) = w
join_slash (w ∷ v ∷ ws) = w ++ slash ∷ join_slash (v ∷ ws)

-- `segments.length > 0 && segments.at(-1) !== ".."`. The head of the stack is the last segment.
unfoldable pub can_climb : List Text → Bool
unfolding ◌==◌
can_climb [] = false
can_climb (last ∷ below) = not (last == codes "..")

abbrev pub pop : List Text → List Text
pop [] = []
pop (last ∷ below) = below

-- The body of the loop of `normalisePath`.
unfoldable pub take_segment : List Text → Text → List Text
unfolding can_climb
take_segment stack segment =
    if segment == [] || segment == codes "."
    then stack
    else if segment == codes ".." && can_climb stack
    then pop stack
    else segment ∷ stack

unfoldable pub take_segments : List Text → List Text → List Text
take_segments stack [] = stack
take_segments stack (segment ∷ rest) = take_segments (take_segment stack segment) rest

unfoldable pub normalise_path : Text → Text
normalise_path value = join_slash (reverse (take_segments [] (split_slash value)))

abbrev pub glob : Text
glob = codes "/**"

-- What stands before a trailing GLOB, if the text ends with one.
unfoldable pub strip_glob : Text → Option Text
strip_glob [] = none
strip_glob (c ∷ rest) =
    let stripped = Option.map (λ (body : Text). c ∷ body) (strip_glob rest) in
    if (c ∷ rest) == glob then some [] else stripped

-- `resource.slice(0, i)` and `resource.slice(i + 1)` at the first colon, if there is one.
unfoldable pub split_colon : Text → Option (Text × Text)
split_colon [] = none
split_colon (c ∷ rest) =
    let split = Option.map (λ (p : Text × Text). (c ∷ p.0, p.1)) (split_colon rest) in
    if eqb c b':' then some ([], rest) else split

unfoldable pub body_of : Option Text → Text → Text
body_of none rest = rest
body_of (some body) rest = body

-- `normaliseResource` of a `file:` resource, whose path part is `rest`.
unfoldable pub normalise_file : Text → Text → Text
unfolding body_of
normalise_file resource rest =
    let stripped = strip_glob rest in
    let body = body_of stripped rest in
    let normalised = normalise_path body in
    if normalised == [] && not (is_some stripped)
    then resource
    else codes "file:"
      ++ ((if starts_with body (codes "/") then codes "/" else [])
          ++ (normalised ++ (if is_some stripped then glob else [])))

unfoldable pub normalise_resource : Text → Text
normalise_resource resource = elim (split_colon resource) [
  | none ↦ resource
  | some (scheme, rest) ↦
      if scheme == codes "file" then normalise_file resource (slashes rest) else resource
]

ends_with_slash : Text → Bool
ends_with_slash [] = false
ends_with_slash (c ∷ []) = eqb c slash
ends_with_slash (c ∷ d ∷ rest) = ends_with_slash (d ∷ rest)

drop_five : Text → Text
drop_five (a ∷ b ∷ c ∷ d ∷ e ∷ rest) = rest
drop_five _ = []

-- `assertMatchableResource`, with the `fail` of claims: a USAGE error.
unfoldable pub assert_matchable_resource : Text → Result Text
unfolding ends_with_slash drop_five body_of any starts_with
assert_matchable_resource resource =
    if not (starts_with resource (codes "file:")) then ok resource else do
      let rest = slashes (drop_five resource)
      require (not (ends_with_slash rest && not (rest == codes "/"))) Exit.usage
      require (not (any (λ c. eqb c b'*') (body_of (strip_glob rest) rest))) Exit.usage
      ok resource
