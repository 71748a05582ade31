-- ===== src/Protocol/Fields.antt =====
-- packages/protocol/src/ids.mjs and src/fields.mjs: portable identifiers, the texts that a record
-- may hold, resource URIs and sequence numbers, over UTF-16 code units.
pub mod Portable
use agents_can_communicate.Base.{
  ℕ, ◌+◌, ◌≤◌, ◌<◌, ◌≡◌, Bool, true, false, not, ◌&&◌, ◌||◌, [], ◌∷◌, arith, Text, codes, ◌==◌,
  if◌then◌else◌, ltb, leb, eqb, is_empty, length, every, any, includes, All, every-All,
  every-includes, ◌++◌, List, ◌≢◌, refl, ap, ◌∙◌,
}

abbrev in_range : ℕ → ℕ → ℕ → Bool
in_range lo hi c = leb lo c && leb c hi

is_lower : ℕ → Bool
is_lower c = in_range b'a' b'z' c

is_digit : ℕ → Bool
is_digit c = in_range b'0' b'9' c

is_alphanumeric : ℕ → Bool
unfolding is_lower is_digit
is_alphanumeric c = in_range b'A' b'Z' c || is_lower c || is_digit c

-- [A-Za-z0-9._-]
is_id_unit : ℕ → Bool
unfolding is_alphanumeric
is_id_unit c = is_alphanumeric c || eqb c b'.' || eqb c b'_' || eqb c b'-'

-- PORTABLE_ID: /^[A-Za-z0-9][A-Za-z0-9._-]{0,199}$/
unfoldable pub matches_portable : Text → Bool
unfolding is_id_unit every
matches_portable [] = false
matches_portable (c ∷ rest) = is_alphanumeric c && every is_id_unit rest && leb (length rest) 199

unfoldable pub ends_with_dot : Text → Bool
ends_with_dot [] = false
ends_with_dot (x ∷ []) = eqb x b'.'
ends_with_dot (x ∷ y ∷ rest) = ends_with_dot (y ∷ rest)

-- The flag `i` of an ASCII expression.
to_lower : ℕ → ℕ
to_lower c = if in_range b'A' b'Z' c then c + 32 else c

-- What stands before the first dot, in lower case.
device_stem : Text → Text
unfolding to_lower
device_stem [] = []
device_stem (c ∷ rest) = let tail = device_stem rest in if eqb c b'.' then [] else to_lower c ∷ tail

-- `com[1-9]` and `lpt[1-9]`
numbered_device : Text → Bool
unfolding ◌==◌
numbered_device (a ∷ b ∷ c ∷ d ∷ []) =
    ((a ∷ b ∷ c ∷ []) == codes "com" || (a ∷ b ∷ c ∷ []) == codes "lpt") && in_range b'1' b'9' d
numbered_device _ = false

-- WINDOWS_DEVICE: /^(?:con|prn|aux|nul|com[1-9]|lpt[1-9])(?:\.|$)/i
unfoldable pub windows_device : Text → Bool
unfolding device_stem includes ◌==◌ numbered_device
windows_device value =
    includes (device_stem value) (codes "con" ∷ codes "prn" ∷ codes "aux" ∷ codes "nul" ∷ [])
    || numbered_device (device_stem value)

-- `assertPortableId` does not throw.
unfoldable pub is_portable_id : Text → Bool
is_portable_id value =
    matches_portable value && not (ends_with_dot value) && not (windows_device value)

-- `\s`, which is also what `trim` takes away.
is_space : ℕ → Bool
is_space c =
    in_range 9 13 c
    || eqb c 32
    || eqb c 160
    || eqb c 5760
    || in_range 8192 8202 c
    || in_range 8232 8233 c
    || eqb c 8239
    || eqb c 8287
    || eqb c 12288
    || eqb c 65279

-- One character of `hasControl`.
is_control : Bool → ℕ → Bool
is_control allow_newline c =
    if allow_newline && (eqb c 10 || eqb c 13) then false else (ltb c 32 || eqb c 127)

has_control : Bool → Text → Bool
unfolding any is_control
has_control allow_newline = any (is_control allow_newline)

-- `text({ max, multiline })` does not throw.
unfoldable pub is_text : ℕ → Bool → Text → Bool
unfolding every is_space has_control
is_text max multiline value =
    not (every is_space value) && leb (length value) max && not (has_control multiline value)

-- [a-z0-9+.-]
is_scheme_unit : ℕ → Bool
unfolding is_lower is_digit
is_scheme_unit c = is_lower c || is_digit c || eqb c b'+' || eqb c b'.' || eqb c b'-'

-- `[a-z0-9+.-]*:[^\s]+$`: a scheme holds no colon, so the first colon ends it.
matches_scheme_rest : Text → Bool
unfolding is_scheme_unit is_space any
matches_scheme_rest [] = false
matches_scheme_rest (c ∷ rest) =
    if eqb c b':'
    then not (is_empty rest) && not (any is_space rest)
    else is_scheme_unit c && matches_scheme_rest rest

-- RESOURCE_URI: /^[a-z][a-z0-9+.-]*:[^\s]+$/
matches_resource_uri : Text → Bool
unfolding is_lower matches_scheme_rest
matches_resource_uri [] = false
matches_resource_uri (c ∷ rest) = is_lower c && matches_scheme_rest rest

-- `resourceUri` (exported as `assertResourceUri`) does not throw.
unfoldable pub is_resource_uri : Text → Bool
unfolding matches_resource_uri has_control
is_resource_uri value =
    matches_resource_uri value && not (has_control false value) && leb (length value) 1024

-- `sequence` does not throw: /^[0-9]{16}$/
unfoldable pub is_sequence : Text → Bool
unfolding is_digit every
is_sequence value = every is_digit value && eqb (length value) 16
