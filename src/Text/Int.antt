-- ===== src/Text/Int.antt =====
-- Python's `int` of a text in base ten.
use azure_iot_dev.Prelude.{
  ℕ, ◌+◌, ◌-◌, ◌*◌, Bool, ◌&&◌, Option, none, some, [], ◌∷◌, leb, if◌then◌else◌,
}
use azure_iot_dev.Text.{Text}

abbrev is_digit : ℕ → Bool
is_digit c = leb b'0' c && leb c b'9'

unfoldable pub digits_onto : ℕ → Text → Option ℕ
digits_onto n [] = some n
digits_onto n (c ∷ s) =
    let rest = digits_onto (n * 10 + (c - b'0')) s in if is_digit c then rest else none

-- `int(s, 10)` for decimal digits; `none` is the `ValueError`. A sign, surrounding blanks and
-- underscores, which Python takes as well, do not come from the service and are refused here.
unfoldable pub int_of : Text → Option ℕ
unfolding digits_onto
int_of [] = none
int_of (c ∷ s) = digits_onto 0 (c ∷ s)
