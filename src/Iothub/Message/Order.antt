-- ===== src/Iothub/Message/Order.antt =====
-- The order in which `encode_message_properties_in_topic` writes the custom properties.
use mathlib.Core.List.{Perm}
use mathlib.Core.List.Perm
use azure_iot_dev.Prelude.{
  ◌≡◌, refl, Bool, true, false, [], ◌∷◌, arith, All, ◌&&◌, not, ==_iff, Bool-cases, inl, inr,
}
use azure_iot_dev.Text.{Text, text_eq}
use azure_iot_dev.Text.Equal.{text_eq_comm}
use azure_iot_dev.Iothub.Message.{Pairs, text_lt, pair_lt, insert_sorted, sort_pairs}

text_lt_asymm : (s t : Text) → text_lt s t ≡ true → text_lt t s ≡ false
unfolding text_lt
text_lt_asymm [] [] h = refl
text_lt_asymm [] (d ∷ t) h = refl
text_lt_asymm (c ∷ s) [] h = absurd (ground (arith, h))
text_lt_asymm (c ∷ s) (d ∷ t) h = ground (arith, h, text_lt_asymm s t, ==_iff c d, ==_iff d c)

text_lt-text_eq : (s t : Text) → text_lt s t ≡ true → text_eq s t ≡ false
unfolding text_lt
text_lt-text_eq [] [] h = absurd (ground (arith, h))
text_lt-text_eq [] (d ∷ t) h = refl
text_lt-text_eq (c ∷ s) [] h = refl
text_lt-text_eq (c ∷ s) (d ∷ t) h = ground (arith, h, text_lt-text_eq s t, ==_iff c d)

pair_lt_asymm : (p q : Text × Text) → pair_lt p q ≡ true → pair_lt q p ≡ false
unfolding pair_lt
pair_lt_asymm (k, v) (l, w) h = ground (
  arith,
  h,
  text_lt_asymm k l,
  text_lt_asymm v w,
  text_lt-text_eq k l,
  text_lt-text_eq l k,
  text_eq_comm k l,
)

-- The first pair, if there is one, does not come before `p`.
abbrev leads : Text × Text → Pairs → Bool
leads p [] = true
leads p (q ∷ rest) = not (pair_lt q p)

-- No pair comes before the one that it follows.
abbrev pub is_sorted : Pairs → Bool
is_sorted [] = true
is_sorted (p ∷ rest) = leads p rest && is_sorted rest

leads-insert :
    (p q : Text × Text) (l : Pairs)
    → leads q l ≡ true
    → pair_lt p q ≡ false
    → leads q (insert_sorted p l) ≡ true
unfolding insert_sorted
leads-insert p q [] h later = ground (arith, later)
leads-insert p q (r ∷ l) h later = ground (arith, h, later)

sorted-insert :
    (p : Text × Text) (l : Pairs) → is_sorted l ≡ true → is_sorted (insert_sorted p l) ≡ true
unfolding insert_sorted
sorted-insert p [] h = refl
sorted-insert p (q ∷ l) h =
    ground (arith, h, sorted-insert p l, leads-insert p q l, pair_lt_asymm q p)

pub sorted-sort_pairs : (l : Pairs) → is_sorted (sort_pairs l) ≡ true
unfolding sort_pairs
sorted-sort_pairs [] = refl
sorted-sort_pairs (p ∷ l) = sorted-insert p (sort_pairs l) (sorted-sort_pairs l)

perm-insert : (p : Text × Text) (l : Pairs) → Perm (insert_sorted p l) (p ∷ l)
unfolding insert_sorted
perm-insert p [] = Perm.refl (p ∷ [])
perm-insert p (q ∷ l) = elim (Bool-cases (pair_lt q p)) [
  | inl before ↦ rw before (Perm.trans (Perm.cons q (perm-insert p l)) (Perm.swap p q l))
  | inr after ↦ rw after (Perm.refl (p ∷ q ∷ l))
]

pub perm-sort_pairs : (l : Pairs) → Perm (sort_pairs l) l
unfolding sort_pairs
perm-sort_pairs [] = Perm.refl []
perm-sort_pairs (p ∷ l) =
    Perm.trans (perm-insert p (sort_pairs l)) (Perm.cons p (perm-sort_pairs l))

module _ {κ} (P : Text × Text → Type κ) where
  All-insert : (p : Text × Text) (l : Pairs) → P p → All P l → All P (insert_sorted p l)
  unfolding insert_sorted
  All-insert p [] h hs = (h, tt)
  All-insert p (q ∷ l) h hs = elim (Bool-cases (pair_lt q p)) [
    | inl before ↦ rw before (hs.0, All-insert p l h hs.1)
    | inr after ↦ rw after (h, hs)
  ]

  pub All-sort_pairs : (l : Pairs) → All P l → All P (sort_pairs l)
  unfolding sort_pairs
  All-sort_pairs [] hs = tt
  All-sort_pairs (p ∷ l) hs = All-insert p (sort_pairs l) hs.0 (All-sort_pairs l hs.1)
