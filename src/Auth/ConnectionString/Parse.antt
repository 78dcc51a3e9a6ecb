-- ===== src/Auth/ConnectionString/Parse.antt =====
-- What is parsed is the text of its dictionary.
use mathlib.Core.Path.{ap₂}
use mathlib.Core.List.{append_assoc, append-nil}
use azure_iot_dev.Prelude.{
  ℕ, ◌+◌, ◌≤◌, ◌≡◌, ==_iff, refl, sym, ap, subst, ◌∙◌, true, false, Option, none, some, List, [],
  ◌∷◌, ◌++◌, arith, all, length, length-append, map, inl, inr, Bool-cases, Option-cases,
}
use azure_iot_dev.Text.{Text, split, split_once}
use azure_iot_dev.Iothub.Topic.{Properties, set_property}
use azure_iot_dev.Iothub.Message.{has_key, has_duplicates}
use azure_iot_dev.Iothub.Message.Keys.{
  set_property-new, length-set_property, length-set_property_le, duplicates-snoc,
}
use azure_iot_dev.Auth.ConnectionString.Pieces.{
  print_pair, join, print, join-split, split_once-pair,
}
use azure_iot_dev.Auth.ConnectionString.{
  ok, is_valid_key, validate_keys, pair_of, read_args, validated, parse_connection_string,
}

-- The arguments that remain, once one has been read as a pair.
read_args-pair :
    (arg : Text) (rest : List Text) (d e : Properties)
    → read_args (arg ∷ rest) d ≡ some e
    → (p : Text × Text) × (print_pair p ≡ arg) × (read_args rest (set_property p.0 p.1 d) ≡ some e)
unfolding read_args
read_args-pair arg rest d e h = elim (Option-cases (pair_of (split_once b'=' arg))) [
  | inl missing ↦ absurd (ground (arith, missing, h))
  | inr (p, found) ↦ (p, split_once-pair arg p found, ground (arith, found, h))
]

length-read_args :
    (args : List Text) (d e : Properties)
    → read_args args d ≡ some e
    → length e ≤ length d + length args
length-read_args [] d e h = unfold read_args in ground (arith, h)
length-read_args (arg ∷ rest) d e h =
    let (p, same, later) = read_args-pair arg rest d e h in
    omega (
      arith,
      length-read_args rest (set_property p.0 p.1 d) e later,
      length-set_property_le p.0 p.1 d,
    )

-- A dictionary with as many entries as there are arguments has each of them, in order.
read_args-full :
    (args : List Text) (d e : Properties)
    → read_args args d ≡ some e
    → length e ≡ length d + length args
    → has_duplicates d ≡ false
    → (ps : Properties) × (e ≡ d ++ ps) × (map print_pair ps ≡ args) × (has_duplicates e ≡ false)
read_args-full [] d e h full single =
    let same : d ≡ e = unfold read_args in ground (arith, h) in
    ([], sym same ∙ sym (append-nil d), refl, subst (λ x. has_duplicates x ≡ false) same single)
read_args-full (arg ∷ rest) d e h full single =
    let (p, same, later) = read_args-pair arg rest d e h in
    elim (Bool-cases (has_key p.0 d)) [
      | inl known ↦ absurd (
          omega (
            arith,
            full,
            length-read_args rest (set_property p.0 p.1 d) e later,
            length-set_property p.0 p.1 d known,
          ))
      | inr new ↦
          let more = d ++ p ∷ [] in
          let (ps, all_of, printed, distinct) =
            read_args-full rest more e
              (subst (λ x. read_args rest x ≡ some e) (set_property-new p.0 p.1 d new) later)
              (omega (arith, full, length-append d (p ∷ [])))
              (duplicates-snoc p.0 p.1 d new single) in
          (p ∷ ps, all_of ∙ append_assoc d (p ∷ []) ps, ap₂ (λ a b. a ∷ b) same printed, distinct)
    ]

validated-some :
    (args : ℕ) (e d : Properties)
    → validated args (some e) ≡ ok d
    → (e ≡ d)
      × (args ≡ length e)
      × (all (λ p. is_valid_key p.0) e ≡ true)
      × (validate_keys e ≡ none)
validated-some args e d h = elim (Option-cases (validate_keys e)) [
  | inl fine ↦ ground (arith, h, fine, ==_iff args (length e))
  | inr (x, bad) ↦ absurd (ground (arith, h, bad))
]

validated-ok :
    (args : ℕ) (found : Option Properties) (d : Properties)
    → validated args found ≡ ok d
    → (found ≡ some d)
      × (args ≡ length d)
      × (all (λ p. is_valid_key p.0) d ≡ true)
      × (validate_keys d ≡ none)
validated-ok args none d h = absurd (ground arith)
validated-ok args (some e) d h =
    let (same, full, keys, valid) = validated-some args e d h in
    subst
      (λ x.
        (some e ≡ some x)
        × (args ≡ length x)
        × (all (λ p. is_valid_key p.0) x ≡ true)
        × (validate_keys x ≡ none))
      same (refl, full, keys, valid)

-- A connection string that is accepted is the text of its dictionary, with every key valid and none
-- twice, and with the keys of one way to authenticate: so nothing of it is lost or changed.
pub parsed_is_printed :
    (s : Text) (d : Properties)
    → parse_connection_string s ≡ ok d
    → (print d ≡ s)
      × (has_duplicates d ≡ false)
      × (all (λ p. is_valid_key p.0) d ≡ true)
      × (validate_keys d ≡ none)
unfolding parse_connection_string
parsed_is_printed s d h =
    let args = split b';' s in
    let (found, full, keys, valid) = validated-ok (length args) (read_args args []) d h in
    let (ps, same, printed, distinct) =
      read_args-full args [] d found (omega (arith, full)) (unfold has_duplicates in refl) in
    (ap print same ∙ ap join printed ∙ join-split s, distinct, keys, valid)
