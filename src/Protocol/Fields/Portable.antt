-- ===== src/Protocol/Fields/Portable.antt =====
-- What `assertPortableId` of packages/protocol/src/ids.mjs guarantees of an identifier.
use agents_can_communicate.Base.{
  ℕ, ◌+◌, ◌≤◌, ◌<◌, ◌≡◌, Bool, true, false, ◌||◌, [], ◌∷◌, arith, Text, codes, ◌==◌, eqb, length,
  every, includes, All, every-All, every-includes, ◌++◌, List, ◌≢◌, refl, ap, ◌∙◌,
}
use agents_can_communicate.Protocol.Fields.{
  is_lower, is_digit, is_alphanumeric, is_id_unit, matches_portable, ends_with_dot, to_lower,
  device_stem, numbered_device, windows_device, is_portable_id,
}

-- A visible ASCII code unit that no file system, shell, glob or URL reads in a way of its own.
-- Each line leaves out some: blanks and controls, `! " # $ % & ' ( ) * + ,` and `/`,
-- `: ; < = > ? @`, `[ \ ] ^`, the backquote, and the braces, the bar, the tilde and what follows.
pub record IsSafeUnit (c : ℕ) : Type 0 where
  pub visible : 32 < c
  pub no_quote_or_star : ¬ ((b'!' ≤ c) × (c ≤ b','))
  pub no_slash : ¬ (c ≡ b'/')
  pub no_colon_or_question : ¬ ((b':' ≤ c) × (c ≤ b'@'))
  pub no_bracket_or_backslash : ¬ ((b'[' ≤ c) × (c ≤ b'^'))
  pub no_backquote : ¬ (c ≡ b'`')
  pub no_brace_or_bar : c < b'{'

id_unit-IsSafeUnit : (c : ℕ) → is_id_unit c ≡ true → IsSafeUnit c
unfolding is_id_unit
id_unit-IsSafeUnit c h = record {
  visible = ground arith;
  no_quote_or_star = ground arith;
  no_slash = ground arith;
  no_colon_or_question = ground arith;
  no_bracket_or_backslash = ground arith;
  no_backquote = ground arith;
  no_brace_or_bar = ground arith;
}

-- The names that Windows keeps for devices.
abbrev pub device_names : List Text
device_names =
    codes "con"
    ∷ codes "prn"
    ∷ codes "aux"
    ∷ codes "nul"
    ∷ codes "com1"
    ∷ codes "com2"
    ∷ codes "com3"
    ∷ codes "com4"
    ∷ codes "com5"
    ∷ codes "com6"
    ∷ codes "com7"
    ∷ codes "com8"
    ∷ codes "com9"
    ∷ codes "lpt1"
    ∷ codes "lpt2"
    ∷ codes "lpt3"
    ∷ codes "lpt4"
    ∷ codes "lpt5"
    ∷ codes "lpt6"
    ∷ codes "lpt7"
    ∷ codes "lpt8"
    ∷ codes "lpt9"
    ∷ []

-- A text spells a name: it differs at most by capitals.
pub data Spells : Text → Text → Type 0 where
  nothing : Spells [] []
  same : (c : ℕ) {x y : Text} → Spells x y → Spells (c ∷ x) (c ∷ y)
  capital : (c : ℕ) {x y : Text} → b'A' ≤ c → c ≤ b'Z' → Spells x y → Spells (c ∷ x) ((c + 32) ∷ y)

-- A device name, in any mixture of cases.
abbrev pub IsDevice : Text → Type 0
IsDevice name = (device : Text) × (includes device device_names ≡ true) × Spells name device

-- An identifier that can be a file name on every platform.
pub record IsPortable (value : Text) : Type 0 where
  pub safe : All IsSafeUnit value
  pub nonempty : value ≢ []
  pub short : length value ≤ 200
  -- so it is no dot file, and neither `.` nor `..`
  pub no_first_dot : (rest : Text) → value ≢ b'.' ∷ rest
  pub no_final_dot : (init : Text) → value ≢ init ++ b'.' ∷ []
  pub no_device : (name : Text) → IsDevice name → value ≢ name
  pub no_device_file : (name extension : Text) → IsDevice name → value ≢ name ++ b'.' ∷ extension

is_small : ℕ → Bool
unfolding is_lower is_digit
is_small c = is_lower c || is_digit c

names_are_small : every (every is_small) device_names ≡ true
unfolding every is_small
names_are_small = refl

is_device : Text → Bool
unfolding numbered_device includes
is_device stem =
    includes stem (codes "con" ∷ codes "prn" ∷ codes "aux" ∷ codes "nul" ∷ [])
    || numbered_device stem

names_are_devices : every is_device device_names ≡ true
unfolding every is_device includes ◌==◌ numbered_device
names_are_devices = refl

device_stem-name :
    {name device : Text}
    → Spells name device
    → every is_small device ≡ true
    → device_stem name ≡ device
unfolding device_stem every is_small to_lower
device_stem-name nothing h = refl
device_stem-name (same c {x} {y} more) h =
    let rest = device_stem-name more (ground arith) in ground arith
device_stem-name (capital c {x} {y} low high more) h =
    let rest = device_stem-name more (ground arith) in ground arith

device_stem-file :
    {name device : Text} (extension : Text)
    → Spells name device
    → every is_small device ≡ true
    → device_stem (name ++ b'.' ∷ extension) ≡ device
unfolding device_stem every is_small to_lower
device_stem-file extension nothing h = refl
device_stem-file extension (same c {x} {y} more) h =
    let rest = device_stem-file extension more (ground arith) in ground arith
device_stem-file extension (capital c {x} {y} low high more) h =
    let rest = device_stem-file extension more (ground arith) in ground arith

device-small : (device : Text) → includes device device_names ≡ true → every is_small device ≡ true
device-small device h = every-includes (every is_small) device device_names names_are_small h

device-windows_device :
    (value device : Text)
    → includes device device_names ≡ true
    → device_stem value ≡ device
    → windows_device value ≡ true
unfolding windows_device is_device
device-windows_device value device h e =
    rw e (every-includes is_device device device_names names_are_devices h)

ends_with_dot-append : (init : Text) → ends_with_dot (init ++ b'.' ∷ []) ≡ true
unfolding ends_with_dot
ends_with_dot-append [] = refl
ends_with_dot-append (x ∷ []) = refl
ends_with_dot-append (x ∷ y ∷ init) = ends_with_dot-append (y ∷ init)

alphanumeric-id_unit : (c : ℕ) → is_alphanumeric c ≡ true → is_id_unit c ≡ true
unfolding is_id_unit
alphanumeric-id_unit c h = ground arith

portable_parts :
    (value : Text)
    → is_portable_id value ≡ true
    → (matches_portable value ≡ true)
      × (ends_with_dot value ≡ false)
      × (windows_device value ≡ false)
unfolding is_portable_id
portable_parts value h = ground arith

matches_parts :
    (c : ℕ) (rest : Text)
    → matches_portable (c ∷ rest) ≡ true
    → (is_alphanumeric c ≡ true) × (every is_id_unit rest ≡ true) × (length rest ≤ 199)
unfolding matches_portable
matches_parts c rest h = ground arith

alphanumeric-ne-dot : (c : ℕ) → is_alphanumeric c ≡ true → eqb c b'.' ≡ false
unfolding is_alphanumeric
alphanumeric-ne-dot c h = ground arith

not-matches-nil : ¬ (matches_portable [] ≡ true)
unfolding matches_portable
not-matches-nil h = cc

-- An accepted identifier is a file name on every platform: it is not empty and has at most 200
-- code units, each of them a visible ASCII character that is no separator, quote, wildcard or
-- other punctuation than `.`, `_` and `-`; it neither starts nor ends with a dot; and it is no name
-- of a Windows device, in any case, with or without an extension.
pub is_portable_id-IsPortable : (value : Text) → is_portable_id value ≡ true → IsPortable value
is_portable_id-IsPortable [] h = absurd (not-matches-nil (portable_parts [] h).0)
is_portable_id-IsPortable (c ∷ rest) h =
    let (matched, final, device) = portable_parts (c ∷ rest) h in
    let (first, others, size) = matches_parts c rest matched in
    let value : Text = c ∷ rest in
    record {
      safe = (
        id_unit-IsSafeUnit c (alphanumeric-id_unit c first),
        every-All is_id_unit IsSafeUnit id_unit-IsSafeUnit rest others,
      );
      nonempty = λ e. cc;
      short = omega arith;
      no_first_dot = λ more e. ground (arith, alphanumeric-ne-dot c first);
      no_final_dot =
          λ init e. let dot = ends_with_dot-append init in let same = ap ends_with_dot e in cc;
      no_device = λ name (stem, m, spelled) e.
          let stems = ap device_stem e ∙ device_stem-name spelled (device-small stem m) in
          let found = device-windows_device value stem m stems in cc;
      no_device_file = λ name extension (stem, m, spelled) e.
          let stems = ap device_stem e ∙ device_stem-file extension spelled (device-small stem m) in
          let found = device-windows_device value stem m stems in cc;
    }
