-- ===== src/Text.antt =====
-- Python strings and the functions of its standard library that the code applies to them. A text
-- is the list of the bytes of its UTF-8 encoding: concatenation, comparison, `in`, `split` at an
-- ASCII character and percent encoding act on the bytes. `unquote` of bytes that are no UTF-8
-- yields those bytes here, and replacement characters in Python.
pub mod Split
pub mod Quote
pub mod Int
pub mod Equal
use Prim.Native.Char.{code}
use Prim.Native.String.{String}
use Prim.Native.Nat.{◌/◌, ◌%◌}
use azure_iot_dev.Prelude.{
  ℕ, ◌+◌, ◌-◌, ◌*◌, Bool, true, false, ◌&&◌, ◌||◌, Option, none, some, List, [], ◌∷◌, ◌++◌, ltb,
  leb, ◌==◌, if◌then◌else◌,
}

abbrev pub Text : Type 0
Text = List ℕ

-- A literal.
abbrev pub codes : String → Text
codes String.[] = []
codes (String.◌∷◌ c s) = code c ∷ codes s

abbrev pub text_eq : Text → Text → Bool
text_eq [] [] = true
text_eq (a ∷ s) (b ∷ t) = a == b && text_eq s t
text_eq _ _ = false

-- `s.startswith(prefix)`
unfoldable pub starts_with : Text → Text → Bool
starts_with [] s = true
starts_with (p ∷ prefix) [] = false
starts_with (p ∷ prefix) (c ∷ s) = p == c && starts_with prefix s

-- `needle in s`
unfoldable pub contains : Text → Text → Bool
unfolding starts_with
contains needle [] = starts_with needle []
contains needle (c ∷ s) = starts_with needle (c ∷ s) || contains needle s

abbrev pub cons_head : ℕ → List Text → List Text
cons_head c [] = (c ∷ []) ∷ []
cons_head c (piece ∷ pieces) = (c ∷ piece) ∷ pieces

-- `s.split(separator)` for a separator of one character
unfoldable pub split : ℕ → Text → List Text
split separator [] = [] ∷ []
split separator (c ∷ s) =
    let rest = split separator s in if c == separator then [] ∷ rest else cons_head c rest

-- `s.split(separator, 1)`
unfoldable pub split_once : ℕ → Text → List Text
split_once separator [] = [] ∷ []
split_once separator (c ∷ s) =
    let rest = split_once separator s in if c == separator then [] ∷ s ∷ [] else cons_head c rest

-- `s.lstrip(c)`
unfoldable pub lstrip : ℕ → Text → Text
lstrip c [] = []
lstrip c (x ∷ s) = let rest = lstrip c s in if x == c then rest else x ∷ s

abbrev is_between : ℕ → ℕ → ℕ → Bool
is_between low high c = leb low c && leb c high

-- The characters that `urllib.parse.quote(s, safe="")` keeps.
abbrev pub is_unreserved : ℕ → Bool
is_unreserved c =
    is_between b'a' b'z' c
    || is_between b'A' b'Z' c
    || is_between b'0' b'9' c
    || c == b'_'
    || c == b'.'
    || c == b'-'
    || c == b'~'

abbrev pub hex_digit : ℕ → ℕ
hex_digit n = if ltb n 10 then b'0' + n else b'A' + (n - 10)

abbrev pub hex_value : ℕ → Option ℕ
hex_value c =
    if is_between b'0' b'9' c
    then some (c - b'0')
    else if is_between b'A' b'F' c
    then some (c - b'A' + 10)
    else if is_between b'a' b'f' c
    then some (c - b'a' + 10)
    else none

abbrev pub quote_byte : ℕ → Text
quote_byte c =
    if is_unreserved c then c ∷ [] else b'%' ∷ hex_digit (c / 16) ∷ hex_digit (c % 16) ∷ []

-- `urllib.parse.quote(s, safe="")`
unfoldable pub quote : Text → Text
quote [] = []
quote (c ∷ s) = quote_byte c ++ quote s

abbrev pub hex_byte : ℕ → ℕ → Option ℕ
hex_byte high low = elim (hex_value high) [
  | none ↦ none
  | some h ↦ elim (hex_value low) [ none ↦ none | some l ↦ some (h * 16 + l) ]
]

abbrev pub unquote_step : ℕ → Option ℕ → Text → Text → Text
unquote_step c none decoded kept = c ∷ kept
unquote_step c (some b) decoded kept = if c == b'%' then b ∷ decoded else c ∷ kept

-- `urllib.parse.unquote(s)`
unfoldable pub unquote : Text → Text
unquote [] = []
unquote (c ∷ []) = c ∷ []
unquote (c ∷ h ∷ []) = c ∷ h ∷ []
unquote (c ∷ h ∷ l ∷ s) =
    let decoded = unquote s in
    let kept = unquote (h ∷ l ∷ s) in unquote_step c (hex_byte h l) decoded kept
