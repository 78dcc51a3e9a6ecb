-- ===== src/Auth/ConnectionString/Pieces.antt =====
-- The text of a dictionary, and the pieces of a text.
use azure_iot_dev.Prelude.{
  ℕ, ◌≡◌, ◌<◌, ==_iff, refl, ap, ◌∙◌, some, List, [], ◌∷◌, ◌++◌, arith, ◌==◌, length, map, inl, inr,
  Bool-cases,
}
use azure_iot_dev.Text.{Text, split, split_once, cons_head}
use azure_iot_dev.Iothub.Topic.{Properties}
use azure_iot_dev.Auth.ConnectionString.{pair_of}

abbrev pub print_pair : Text × Text → Text
print_pair (key, value) = key ++ b'=' ∷ value

abbrev pub join : List Text → Text
join [] = []
join (piece ∷ []) = piece
join (piece ∷ next ∷ rest) = piece ++ b';' ∷ join (next ∷ rest)

-- `key=value;...`
abbrev pub print : Properties → Text
print d = join (map print_pair d)

join-cons_head : (c : ℕ) (pieces : List Text) → join (cons_head c pieces) ≡ c ∷ join pieces
join-cons_head c [] = refl
join-cons_head c (piece ∷ []) = refl
join-cons_head c (piece ∷ next ∷ rest) = refl

cons_head_nonempty : (c : ℕ) (pieces : List Text) → 0 < length (cons_head c pieces)
cons_head_nonempty c [] = omega arith
cons_head_nonempty c (piece ∷ pieces) = omega arith

split_nonempty : (d : ℕ) (s : Text) → 0 < length (split d s)
unfolding split
split_nonempty d [] = omega arith
split_nonempty d (c ∷ s) = ground (arith, cons_head_nonempty c (split d s))

join-nil : (pieces : List Text) → 0 < length pieces → join ([] ∷ pieces) ≡ b';' ∷ join pieces
join-nil [] h = absurd (omega (arith, h))
join-nil (piece ∷ pieces) h = refl

pub join-split : (s : Text) → join (split b';' s) ≡ s
unfolding split
join-split [] = refl
join-split (c ∷ s) = ground (
  arith,
  ==_iff c b';',
  join-nil (split b';' s) (split_nonempty b';' s),
  join-cons_head c (split b';' s),
  join-split s,
)

cons_head-pair :
    (c : ℕ) (pieces : List Text) (p : Text × Text)
    → pair_of (cons_head c pieces) ≡ some p
    → (key : Text) × (value : Text) × (pieces ≡ key ∷ value ∷ []) × (p ≡ (c ∷ key, value))
cons_head-pair c [] p e = absurd (ground arith)
cons_head-pair c (key ∷ []) p e = absurd (ground arith)
cons_head-pair c (key ∷ value ∷ []) p e = (key, value, refl, ground arith)
cons_head-pair c (key ∷ value ∷ next ∷ rest) p e = absurd (ground arith)

-- What `split_once` gives as a key and a value is what it was given.
pub split_once-pair :
    (arg : Text) (p : Text × Text) → pair_of (split_once b'=' arg) ≡ some p → print_pair p ≡ arg
unfolding split_once
split_once-pair [] p e = absurd (ground arith)
split_once-pair (c ∷ arg) p e = elim (Bool-cases (c == b'=')) [
  | inl separator ↦ ground (arith, ==_iff c b'=')
  | inr other ↦
      let (key, value, pieces, same) = cons_head-pair c (split_once b'=' arg) p (ground arith) in
      ap print_pair same ∙ ap (λ t. c ∷ t) (split_once-pair arg (key, value) (ap pair_of pieces))
]
