-- ===== src/Text/Split.antt =====
-- `split` at a separator that stands nowhere in the pieces.
use azure_iot_dev.Prelude.{all, not, ℕ, ◌≡◌, refl, true, false, [], ◌∷◌, ◌++◌, arith, All, ◌==◌}
use azure_iot_dev.Text.{Text, split, split_once}

abbrev pub Lacks : ℕ → Text → Type 0
Lacks separator = All (λ c. (c == separator) ≡ false)

pub split-append :
    (separator : ℕ) (piece s : Text)
    → Lacks separator piece
    → split separator (piece ++ separator ∷ s) ≡ piece ∷ split separator s
unfolding split
split-append separator [] s h = ground arith
split-append separator (c ∷ piece) s h = ground (arith, h.0, split-append separator piece s h.1)

pub split-Lacks :
    (separator : ℕ) (piece : Text) → Lacks separator piece → split separator piece ≡ piece ∷ []
unfolding split
split-Lacks separator [] h = refl
split-Lacks separator (c ∷ piece) h = ground (arith, h.0, split-Lacks separator piece h.1)

pub Lacks-append :
    (separator : ℕ) (s t : Text) → Lacks separator s → Lacks separator t → Lacks separator (s ++ t)
Lacks-append separator [] t hs ht = ht
Lacks-append separator (c ∷ s) t hs ht = (hs.0, Lacks-append separator s t hs.1 ht)

-- For a literal, by evaluation.
pub all-Lacks :
    (separator : ℕ) (s : Text) → all (λ c. not (c == separator)) s ≡ true → Lacks separator s
all-Lacks separator [] h = tt
all-Lacks separator (c ∷ s) h = (ground arith, all-Lacks separator s (ground arith))

pub split_once-append :
    (separator : ℕ) (piece s : Text)
    → Lacks separator piece
    → split_once separator (piece ++ separator ∷ s) ≡ piece ∷ s ∷ []
unfolding split_once
split_once-append separator [] s h = ground arith
split_once-append separator (c ∷ piece) s h =
    ground (arith, h.0, split_once-append separator piece s h.1)
