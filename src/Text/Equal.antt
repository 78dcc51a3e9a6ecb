-- ===== src/Text/Equal.antt =====
-- The comparison of texts.
use azure_iot_dev.Prelude.{◌≡◌, refl, true, [], ◌∷◌, ==_iff, arith}
use azure_iot_dev.Text.{Text, text_eq}

pub text_eq_sound : (s t : Text) → text_eq s t ≡ true → s ≡ t
text_eq_sound [] [] h = refl
text_eq_sound [] (d ∷ t) h = absurd (ground arith)
text_eq_sound (c ∷ s) [] h = absurd (ground arith)
text_eq_sound (c ∷ s) (d ∷ t) h = ground (arith, ==_iff c d, text_eq_sound s t)

pub text_eq_refl : (s : Text) → text_eq s s ≡ true
text_eq_refl [] = refl
text_eq_refl (c ∷ s) = ground (arith, text_eq_refl s)

pub text_eq_comm : (s t : Text) → text_eq s t ≡ text_eq t s
text_eq_comm [] [] = refl
text_eq_comm [] (d ∷ t) = refl
text_eq_comm (c ∷ s) [] = refl
text_eq_comm (c ∷ s) (d ∷ t) = ground (arith, text_eq_comm s t)

-- Names that are equal are compared alike with any other.
pub text_eq_cong : (a b c : Text) → text_eq a b ≡ true → text_eq a c ≡ text_eq b c
text_eq_cong [] [] c h = refl
text_eq_cong [] (y ∷ b) c h = absurd (ground arith)
text_eq_cong (x ∷ a) [] c h = absurd (ground arith)
text_eq_cong (x ∷ a) (y ∷ b) [] h = refl
text_eq_cong (x ∷ a) (y ∷ b) (z ∷ c) h = ground (arith, text_eq_cong a b c, ==_iff x y)
