-- ===== src/Iothub/Message/Encode.antt =====
-- What `encode_message_properties_in_topic` writes.
use mathlib.Core.Path.{ap₂}
use mathlib.Core.List.{append_assoc, append-nil}
use azure_iot_dev.Text.Equal.{text_eq_comm}
use azure_iot_dev.Prelude.{◌≢◌, ◌≡◌, refl, ap, sym, ◌∙◌, ◌||◌, [], ◌∷◌, ◌++◌, arith, if◌then◌else◌}
use azure_iot_dev.Text.{Text, text_eq}
use azure_iot_dev.Iothub.Topic.{ok, err, value_error}
use azure_iot_dev.Iothub.Message.{
  Message, Pairs, encode_pair, urlencode, insert_sorted, sort_pairs, has_key, has_duplicates,
  separator, append_custom, system_properties, encode_message_properties_in_topic,
}

-- Sorting changes no membership of a key, and no duplicate.
has_key-insert_sorted :
    (key : Text) (p : Text × Text) (l : Pairs)
    → has_key key (insert_sorted p l) ≡ has_key key (p ∷ l)
unfolding has_key insert_sorted
has_key-insert_sorted key p [] = refl
has_key-insert_sorted key p (q ∷ l) = ground (arith, has_key-insert_sorted key p l)

has_key-cons :
    (key : Text) (p : Text × Text) (l : Pairs)
    → has_key key (p ∷ l) ≡ (text_eq p.0 key || has_key key l)
unfolding has_key
has_key-cons key p l = refl

has_duplicates-cons :
    (p : Text × Text) (l : Pairs) → has_duplicates (p ∷ l) ≡ (has_key p.0 l || has_duplicates l)
unfolding has_duplicates
has_duplicates-cons p l = refl

has_key-sort_pairs : (key : Text) (l : Pairs) → has_key key (sort_pairs l) ≡ has_key key l
unfolding sort_pairs
has_key-sort_pairs key [] = refl
has_key-sort_pairs key (p ∷ l) =
    has_key-insert_sorted key p (sort_pairs l)
    ∙ has_key-cons key p (sort_pairs l)
    ∙ ap (λ b. text_eq p.0 key || b) (has_key-sort_pairs key l)
    ∙ sym (has_key-cons key p l)

duplicates-insert_sorted :
    (p : Text × Text) (l : Pairs)
    → has_duplicates (insert_sorted p l) ≡ (has_key p.0 l || has_duplicates l)
unfolding has_duplicates insert_sorted
duplicates-insert_sorted p [] = refl
duplicates-insert_sorted p (q ∷ l) =
    ground
      (arith, duplicates-insert_sorted p l, has_key-insert_sorted q.0 p l, text_eq_comm p.0 q.0)

pub duplicates-sort_pairs : (l : Pairs) → has_duplicates (sort_pairs l) ≡ has_duplicates l
unfolding sort_pairs
duplicates-sort_pairs [] = refl
duplicates-sort_pairs (p ∷ l) =
    duplicates-insert_sorted p (sort_pairs l)
    ∙ ap₂ ◌||◌ (has_key-sort_pairs p.0 l) (duplicates-sort_pairs l)
    ∙ sym (has_duplicates-cons p l)

insert_sorted-ne : (p : Text × Text) (l : Pairs) → insert_sorted p l ≢ []
unfolding insert_sorted
insert_sorted-ne p [] e = cc
insert_sorted-ne p (q ∷ l) e = ground arith

sort_pairs-ne : (p : Text × Text) (l : Pairs) → sort_pairs (p ∷ l) ≢ []
unfolding sort_pairs
sort_pairs-ne p l = insert_sorted-ne p (sort_pairs l)

urlencode-append :
    (xs ys : Pairs)
    → ys ≢ []
    → urlencode (xs ++ ys) ≡ (urlencode xs ++ separator xs) ++ urlencode ys
unfolding urlencode
urlencode-append xs [] h = absurd (h refl)
urlencode-append [] (y ∷ ys) h = refl
urlencode-append (x ∷ []) (y ∷ ys) h =
    sym (append_assoc (encode_pair x) (b'&' ∷ []) (urlencode (y ∷ ys)))
urlencode-append (x ∷ x' ∷ xs) (y ∷ ys) h =
    ap (λ t. encode_pair x ++ b'&' ∷ t) (urlencode-append (x' ∷ xs) (y ∷ ys) h)
    ∙ sym (
        append_assoc (encode_pair x) (b'&' ∷ (urlencode (x' ∷ xs) ++ b'&' ∷ []))
          (urlencode (y ∷ ys)))
    ∙ ap (λ t. t ++ urlencode (y ∷ ys))
        (sym (append_assoc (encode_pair x) (b'&' ∷ urlencode (x' ∷ xs)) (b'&' ∷ [])))

-- The branch of the code that finds custom properties.
append_custom-cons :
    (p : Text × Text) (rest system : Pairs) (topic : Text)
    → append_custom (p ∷ rest) system (topic ++ urlencode system) ≡ (
        if has_duplicates (p ∷ rest)
        then err value_error
        else ok (topic ++ urlencode (system ++ sort_pairs (p ∷ rest))))
append_custom-cons p rest system topic =
    ap₂ (λ b t. if b then err value_error else ok t) (duplicates-sort_pairs (p ∷ rest))
      (append_assoc (topic ++ urlencode system) (separator system) _
        ∙ append_assoc topic (urlencode system) _
        ∙ ap (λ t. topic ++ t)
            (sym (append_assoc (urlencode system) (separator system) _)
              ∙ sym (urlencode-append system (sort_pairs (p ∷ rest)) (sort_pairs-ne p rest))))

encode-split :
    (custom system : Pairs) (topic : Text)
    → append_custom custom system (topic ++ urlencode system) ≡ (
        if has_duplicates custom
        then err value_error
        else ok (topic ++ urlencode (system ++ sort_pairs custom)))
encode-split [] system topic =
    unfold has_duplicates sort_pairs in
    ap (λ all. ok (topic ++ urlencode all)) (sym (append-nil system))
encode-split (p ∷ rest) system topic = append_custom-cons p rest system topic

-- The system properties of the message and the custom properties, sorted, are written as one
-- `urlencode` behind the topic, each pair once; if two custom properties have the same key once
-- they are converted, it is an error, and only then.
pub encode_lem :
    (m : Message) (custom : Pairs) (topic : Text)
    → encode_message_properties_in_topic m custom topic ≡ (
        if has_duplicates custom
        then err value_error
        else ok (topic ++ urlencode (system_properties m ++ sort_pairs custom)))
unfolding encode_message_properties_in_topic
encode_lem m custom topic = encode-split custom (system_properties m) topic
