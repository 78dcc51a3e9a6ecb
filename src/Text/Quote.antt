-- ===== src/Text/Quote.antt =====
-- Percent encoding: it is undone by `unquote`, and leaves no reserved character.
use Prim.Native.Nat.{◌/◌, ◌%◌}
use mathlib.Core.Bool.{false≢true}
use azure_iot_dev.Prelude.{
  sym, ==_iff, ℕ, ◌<◌, ◌≡◌, refl, ap, ◌∙◌, inl, inr, true, false, some, [], ◌∷◌, arith, All, ◌==◌,
  Bool-cases,
}
use azure_iot_dev.Text.{
  Text, is_unreserved, hex_digit, hex_value, hex_byte, quote_byte, quote, unquote,
}
use azure_iot_dev.Text.Split.{Lacks, Lacks-append}

abbrev pub Bytes : Text → Type 0
Bytes = All (λ c. c < 256)

hex_value-hex_digit : (n : ℕ) → n < 16 → hex_value (hex_digit n) ≡ some n
hex_value-hex_digit n h = ground arith

hex_byte-hex_digit : (c : ℕ) → c < 256 → hex_byte (hex_digit (c / 16)) (hex_digit (c % 16)) ≡ some c
hex_byte-hex_digit c h =
    ground (
      arith,
      hex_value-hex_digit (c / 16) (omega arith),
      hex_value-hex_digit (c % 16) (omega arith),
    )

unquote-other : (c : ℕ) (s : Text) → (c == b'%') ≡ false → unquote (c ∷ s) ≡ c ∷ unquote s
unfolding unquote
unquote-other c [] h = refl
unquote-other c (a ∷ []) h = refl
unquote-other c (a ∷ b ∷ s) h = ground arith

unquote-escape :
    (c : ℕ) (s : Text)
    → c < 256
    → unquote (b'%' ∷ hex_digit (c / 16) ∷ hex_digit (c % 16) ∷ s) ≡ c ∷ unquote s
unfolding unquote
unquote-escape c s h = rw (hex_byte-hex_digit c h)

unreserved-ne_percent : (c : ℕ) → is_unreserved c ≡ true → (c == b'%') ≡ false
unreserved-ne_percent c h = ground arith

-- `unquote` undoes `quote`.
pub unquote-quote : (s : Text) → Bytes s → unquote (quote s) ≡ s
unfolding quote
unquote-quote [] h = unfold unquote in refl
unquote-quote (c ∷ s) h = elim (Bool-cases (is_unreserved c)) [
  | inl plain ↦ rw plain (
      unquote-other c (quote s) (unreserved-ne_percent c plain)
      ∙ ap (λ t. c ∷ t) (unquote-quote s h.1))
  | inr escaped ↦
      rw escaped (unquote-escape c (quote s) h.0 ∙ ap (λ t. c ∷ t) (unquote-quote s h.1))
]

-- A character that is neither kept by `quote` nor made by it.
abbrev pub IsReserved : ℕ → Type 0
IsReserved d = (is_unreserved d ≡ false) × ((d == b'%') ≡ false)

pub slash-IsReserved : IsReserved b'/'
slash-IsReserved = (refl, refl)

pub question-IsReserved : IsReserved b'?'
question-IsReserved = (refl, refl)

pub ampersand-IsReserved : IsReserved b'&'
ampersand-IsReserved = (refl, refl)

pub equals-IsReserved : IsReserved b'='
equals-IsReserved = (refl, refl)

pub dollar-IsReserved : IsReserved b'$'
dollar-IsReserved = (refl, refl)

hex_digit-ne : (n d : ℕ) → n < 16 → is_unreserved d ≡ false → (hex_digit n == d) ≡ false
hex_digit-ne n d h reserved = ground arith

unreserved-ne : (c d : ℕ) → is_unreserved c ≡ true → is_unreserved d ≡ false → (c == d) ≡ false
unreserved-ne c d plain reserved = elim (Bool-cases (c == d)) [
  | inl same ↦
      absurd (false≢true (sym reserved ∙ ap is_unreserved (sym ((==_iff c d).0 same)) ∙ plain))
  | inr differ ↦ differ
]

quote_byte-Lacks : (d c : ℕ) → c < 256 → IsReserved d → Lacks d (quote_byte c)
quote_byte-Lacks d c h reserved = elim (Bool-cases (is_unreserved c)) [
  | inl plain ↦ rw plain (unreserved-ne c d plain reserved.0, tt)
  | inr escaped ↦ rw escaped (
    ground arith,
    (
      hex_digit-ne (c / 16) d (omega arith) reserved.0,
      (hex_digit-ne (c % 16) d (omega arith) reserved.0, tt),
    ),
  )
]

-- No reserved character stands in a quoted text.
pub quote-Lacks : (d : ℕ) (s : Text) → Bytes s → IsReserved d → Lacks d (quote s)
unfolding quote
quote-Lacks d [] h reserved = tt
quote-Lacks d (c ∷ s) h reserved =
    Lacks-append d (quote_byte c) (quote s) (quote_byte-Lacks d c h.0 reserved)
      (quote-Lacks d s h.1 reserved)
