-- ===== src/Auth/ConnectionString/Print.antt =====
-- The text of a valid dictionary is parsed.
use mathlib.Core.Path.{ap₂}
use mathlib.Core.List.{append_assoc, append-nil}
use azure_iot_dev.Text.Equal.{text_eq_sound}
use azure_iot_dev.Prelude.{
  ℕ, suc, ◌≡◌, ==_iff, refl, sym, ap, ◌∙◌, Bool, true, false, not, none, some, List, [], ◌∷◌, ◌++◌,
  arith, All, all, ◌==◌, length, map,
}
use azure_iot_dev.Text.{Text, text_eq, split}
use azure_iot_dev.Text.Split.{
  Lacks, all-Lacks, split-append, split-Lacks, Lacks-append, split_once-append,
}
use azure_iot_dev.Iothub.Topic.{Properties, set_property}
use azure_iot_dev.Iothub.Message.{has_key, has_duplicates}
use azure_iot_dev.Iothub.Message.Keys.{AllNew, AllNew-snoc, nil-AllNew, set_property-new}
use azure_iot_dev.Auth.ConnectionString.{
  ok, host_name, shared_access_key_name, shared_access_key, shared_access_signature, device_id,
  module_id, gateway_host_name, x509, is_valid_key, validate_keys, pair_of, read_args, validated,
  parse_connection_string,
}
use azure_iot_dev.Auth.ConnectionString.Pieces.{print_pair, print}

abbrev lacks : ℕ → Text → Bool
lacks d = all (λ c. not (c == d))

lacks_by :
    (d : ℕ) (key valid : Text)
    → lacks d valid ≡ true
    → text_eq key valid ≡ true
    → lacks d key ≡ true
lacks_by d key valid h same = ap (lacks d) (text_eq_sound key valid same) ∙ h

-- Neither of the two delimiters stands in a valid key.
is_valid_key-semicolon : (key : Text) → is_valid_key key ≡ true → Lacks b';' key
unfolding is_valid_key
is_valid_key-semicolon key h = all-Lacks b';' key (
    ground (
      arith,
      lacks_by b';' key host_name refl,
      lacks_by b';' key shared_access_key_name refl,
      lacks_by b';' key shared_access_key refl,
      lacks_by b';' key shared_access_signature refl,
      lacks_by b';' key device_id refl,
      lacks_by b';' key module_id refl,
      lacks_by b';' key gateway_host_name refl,
      lacks_by b';' key x509 refl,
    ))

is_valid_key-equals : (key : Text) → is_valid_key key ≡ true → Lacks b'=' key
unfolding is_valid_key
is_valid_key-equals key h = all-Lacks b'=' key (
    ground (
      arith,
      lacks_by b'=' key host_name refl,
      lacks_by b'=' key shared_access_key_name refl,
      lacks_by b'=' key shared_access_key refl,
      lacks_by b'=' key shared_access_signature refl,
      lacks_by b'=' key device_id refl,
      lacks_by b'=' key module_id refl,
      lacks_by b'=' key gateway_host_name refl,
      lacks_by b'=' key x509 refl,
    ))

abbrev pub IsPlain : Text × Text → Type 0
IsPlain p = (is_valid_key p.0 ≡ true) × Lacks b';' p.1

print_pair-Lacks : (p : Text × Text) → IsPlain p → Lacks b';' (print_pair p)
print_pair-Lacks (key, value) h =
    Lacks-append b';' key (b'=' ∷ value) (is_valid_key-semicolon key h.0) (refl, h.1)

split-print :
    (p : Text × Text) (rest : Properties)
    → All IsPlain (p ∷ rest)
    → split b';' (print (p ∷ rest)) ≡ map print_pair (p ∷ rest)
split-print p [] h = split-Lacks b';' (print_pair p) (print_pair-Lacks p h.0)
split-print p (next ∷ rest) h =
    split-append b';' (print_pair p) (print (next ∷ rest)) (print_pair-Lacks p h.0)
    ∙ ap (λ t. print_pair p ∷ t) (split-print next rest h.1)

read_args-one :
    (key value : Text) (args : List Text) (d : Properties)
    → Lacks b'=' key
    → has_key key d ≡ false
    → read_args (print_pair (key, value) ∷ args) d ≡ read_args args (d ++ (key, value) ∷ [])
unfolding read_args
read_args-one key value args d plain new =
    ap
      (λ pieces. elim (pair_of pieces) [
        | none ↦ none
        | some p ↦ read_args args (set_property p.0 p.1 d)
      ])
      (split_once-append b'=' key value plain)
    ∙ ap (read_args args) (set_property-new key value d new)

read_args-print :
    (ps d : Properties)
    → All IsPlain ps
    → has_duplicates ps ≡ false
    → AllNew d ps
    → read_args (map print_pair ps) d ≡ some (d ++ ps)
unfolding read_args has_duplicates
read_args-print [] d h single new = ap some (sym (append-nil d))
read_args-print ((key, value) ∷ ps) d h single new =
    read_args-one key value (map print_pair ps) d (is_valid_key-equals key h.0.0) new.0
    ∙ read_args-print ps (d ++ (key, value) ∷ []) h.1 (ground arith)
        (AllNew-snoc key value d ps (ground arith) new.1)
    ∙ ap some (append_assoc d ((key, value) ∷ []) ps)

length-map : (ps : Properties) → length (map print_pair ps) ≡ length ps
length-map [] = refl
length-map (p ∷ ps) = ap (λ n. suc n) (length-map ps)

all_valid : (ps : Properties) → All IsPlain ps → all (λ p. is_valid_key p.0) ps ≡ true
all_valid [] h = refl
all_valid (p ∷ ps) h = ground (arith, h.0.0, all_valid ps h.1)

validated-valid :
    (d : Properties)
    → all (λ p. is_valid_key p.0) d ≡ true
    → validate_keys d ≡ none
    → validated (length d) (some d) ≡ ok d
validated-valid d keys valid = ground (arith, keys, valid, ==_iff (length d) (length d))

-- The text of a dictionary with valid keys, none of them twice, with values without `;` and with
-- the keys of one way to authenticate, is accepted, and the dictionary is read back in order.
pub printed_is_parsed :
    (p : Text × Text) (rest : Properties)
    → All IsPlain (p ∷ rest)
    → has_duplicates (p ∷ rest) ≡ false
    → validate_keys (p ∷ rest) ≡ none
    → parse_connection_string (print (p ∷ rest)) ≡ ok (p ∷ rest)
unfolding parse_connection_string
printed_is_parsed p rest h single valid =
    ap (λ args. validated (length args) (read_args args [])) (split-print p rest h)
    ∙ ap₂ validated (length-map (p ∷ rest))
        (read_args-print (p ∷ rest) [] h single (nil-AllNew (p ∷ rest)))
    ∙ validated-valid (p ∷ rest) (all_valid (p ∷ rest) h) valid
