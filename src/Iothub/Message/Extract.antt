-- ===== src/Iothub/Message/Extract.antt =====
-- What `urlencode` writes, the loop of `extract_message_properties_from_topic` reads.
use mathlib.Core.Path.{ap₂}
use mathlib.Core.Bool.{false≢true}
use mathlib.Core.List.{append_assoc}
use azure_iot_dev.Prelude.{
  ◌≢◌, ==_iff, ℕ, ◌≡◌, refl, ap, sym, ◌∙◌, false, none, some, [], ◌∷◌, ◌++◌, arith, All, ◌==◌,
  if◌then◌else◌,
}
use azure_iot_dev.Text.{Text, codes, text_eq, split, quote}
use azure_iot_dev.Text.Split.{Lacks, all-Lacks, split-append, split-Lacks, Lacks-append}
use azure_iot_dev.Text.Quote.{
  Bytes, IsReserved, equals-IsReserved, ampersand-IsReserved, slash-IsReserved, unquote-quote,
  quote-Lacks,
}
use azure_iot_dev.Iothub.Topic.{ok}
use azure_iot_dev.Iothub.Message.{
  Message, set_on_message, set_pair, set_entries, properties_part, extract_from,
  extract_message_properties_from_topic, Pairs, encode_pair, urlencode,
}

abbrev pub PairBytes : Text × Text → Type 0
PairBytes p = Bytes p.0 × Bytes p.1

-- The pairs set on the message one after another.
abbrev pub set_pairs : Pairs → Message → Message
set_pairs [] m = m
set_pairs ((key, value) ∷ rest) m = set_pairs rest (set_on_message key (some value) m)

set_pair-encode :
    (key value : Text) (m : Message)
    → Bytes key
    → Bytes value
    → set_pair (split b'=' (encode_pair (key, value))) m ≡ set_on_message key (some value) m
set_pair-encode key value m hk hv =
    ap (λ parts. set_pair parts m)
      (split-append b'=' (quote key) (quote value) (quote-Lacks b'=' key hk equals-IsReserved)
        ∙ ap (λ rest. quote key ∷ rest)
            (split-Lacks b'=' (quote value) (quote-Lacks b'=' value hv equals-IsReserved)))
    ∙ ap₂ (λ k v. set_on_message k (some v) m) (unquote-quote key hk) (unquote-quote value hv)

-- A character that `quote` never yields, and that is not `=`.
pub encode_pair-Lacks :
    (d : ℕ) (p : Text × Text)
    → PairBytes p
    → IsReserved d
    → (b'=' == d) ≡ false
    → Lacks d (encode_pair p)
encode_pair-Lacks d (key, value) h reserved other =
    Lacks-append d (quote key) (b'=' ∷ quote value) (quote-Lacks d key h.0 reserved)
      (other, quote-Lacks d value h.1 reserved)

set_entries-urlencode :
    (p : Text × Text) (rest : Pairs) (m : Message)
    → All PairBytes (p ∷ rest)
    → set_entries (split b'&' (urlencode (p ∷ rest))) m ≡ set_pairs (p ∷ rest) m
unfolding set_entries urlencode
set_entries-urlencode (key, value) [] m h =
    ap (λ entries. set_entries entries m)
      (split-Lacks b'&' (encode_pair (key, value))
        (encode_pair-Lacks b'&' (key, value) h.0 ampersand-IsReserved refl))
    ∙ set_pair-encode key value m h.0.0 h.0.1
set_entries-urlencode (key, value) (next ∷ rest) m h =
    ap (λ entries. set_entries entries m)
      (split-append b'&' (encode_pair (key, value)) (urlencode (next ∷ rest))
        (encode_pair-Lacks b'&' (key, value) h.0 ampersand-IsReserved refl))
    ∙ ap (set_entries (split b'&' (urlencode (next ∷ rest))))
        (set_pair-encode key value m h.0.0 h.0.1)
    ∙ set_entries-urlencode next rest (set_on_message key (some value) m) h.1

text_eq-other :
    (c : ℕ) (before after other : Text)
    → Lacks c other
    → text_eq (before ++ c ∷ after) other ≡ false
text_eq-other c [] after [] h = refl
text_eq-other c [] after (d ∷ other) h = ground (arith, h.0, ==_iff c d, ==_iff d c)
text_eq-other c (b ∷ before) after [] h = refl
text_eq-other c (b ∷ before) after (d ∷ other) h =
    ground (arith, text_eq-other c before after other h.1)

text_eq-inputs :
    (p : Text × Text) (rest : Pairs) → text_eq (urlencode (p ∷ rest)) (codes "inputs") ≡ false
unfolding urlencode
text_eq-inputs (key, value) [] =
    text_eq-other b'=' (quote key) (quote value) (codes "inputs")
      (all-Lacks b'=' (codes "inputs") refl)
text_eq-inputs (key, value) (next ∷ rest) =
    ap (λ t. text_eq t (codes "inputs")) (append_assoc (quote key) (b'=' ∷ quote value) _)
    ∙ text_eq-other b'=' (quote key) (quote value ++ b'&' ∷ urlencode (next ∷ rest))
        (codes "inputs") (all-Lacks b'=' (codes "inputs") refl)

pub urlencode-Lacks :
    (d : ℕ) (pairs : Pairs)
    → All PairBytes pairs
    → IsReserved d
    → (b'=' == d) ≡ false
    → (b'&' == d) ≡ false
    → Lacks d (urlencode pairs)
unfolding urlencode
urlencode-Lacks d [] h reserved other more = tt
urlencode-Lacks d (p ∷ []) h reserved other more = encode_pair-Lacks d p h.0 reserved other
urlencode-Lacks d (p ∷ next ∷ rest) h reserved other more =
    Lacks-append d (encode_pair p) (b'&' ∷ urlencode (next ∷ rest))
      (encode_pair-Lacks d p h.0 reserved other)
      (more, urlencode-Lacks d (next ∷ rest) h.1 reserved other more)

-- `devices/<deviceId>/messages/devicebound/<properties>`
abbrev pub c2d_topic : Text → Text → Text
c2d_topic device_id properties =
    codes "devices"
    ++ b'/'
      ∷ (device_id
          ++ b'/' ∷ (codes "messages" ++ b'/' ∷ (codes "devicebound" ++ b'/' ∷ properties)))

pub split-c2d :
    (device_id properties : Text)
    → Lacks b'/' device_id
    → Lacks b'/' properties
    → split b'/' (c2d_topic device_id properties)
      ≡ codes "devices" ∷ device_id ∷ codes "messages" ∷ codes "devicebound" ∷ properties ∷ []
split-c2d device_id properties hd hp =
    split-append b'/' (codes "devices") _ (all-Lacks b'/' (codes "devices") refl)
    ∙ ap (λ t. codes "devices" ∷ t) (split-append b'/' device_id _ hd)
    ∙ ap (λ t. codes "devices" ∷ device_id ∷ t)
        (split-append b'/' (codes "messages") _ (all-Lacks b'/' (codes "messages") refl))
    ∙ ap (λ t. codes "devices" ∷ device_id ∷ codes "messages" ∷ t)
        (split-append b'/' (codes "devicebound") properties
            (all-Lacks b'/' (codes "devicebound") refl)
          ∙ ap (λ t. codes "devicebound" ∷ t) (split-Lacks b'/' properties hp))

text_eq-other_nil : (p : Text × Text) (rest : Pairs) → text_eq (urlencode (p ∷ rest)) [] ≡ false
unfolding urlencode
text_eq-other_nil (key, value) [] = text_eq-other b'=' (quote key) (quote value) [] tt
text_eq-other_nil (key, value) (next ∷ rest) =
    ap (λ t. text_eq t []) (append_assoc (quote key) (b'=' ∷ quote value) _)
    ∙ text_eq-other b'=' (quote key) (quote value ++ b'&' ∷ urlencode (next ∷ rest)) [] tt

urlencode-ne : (p : Text × Text) (rest : Pairs) → urlencode (p ∷ rest) ≢ []
urlencode-ne p rest e = false≢true (sym (text_eq-other_nil p rest) ∙ ap (λ t. text_eq t []) e)

set_entries_of :
    (p : Text × Text) (rest : Pairs) (m : Message)
    → extract_from (ok (some (urlencode (p ∷ rest)))) m
      ≡ ok (set_entries (split b'&' (urlencode (p ∷ rest))) m)
set_entries_of p rest m = nonempty (urlencode (p ∷ rest)) (urlencode-ne p rest)
  where
    nonempty :
        (t : Text) → t ≢ [] → extract_from (ok (some t)) m ≡ ok (set_entries (split b'&' t) m)
    nonempty [] h = absurd (h refl)
    nonempty (c ∷ t) h = refl

-- A cloud-to-device topic for a device id without `/`, with at least one property, all written as
-- `urlencode` does: each pair is set on the message, with the key and the value that were encoded,
-- one after another and nothing else.
pub extract_c2d :
    (device_id : Text) (p : Text × Text) (rest : Pairs) (m : Message)
    → Lacks b'/' device_id
    → All PairBytes (p ∷ rest)
    → extract_message_properties_from_topic (c2d_topic device_id (urlencode (p ∷ rest))) m
      ≡ ok (set_pairs (p ∷ rest) m)
unfolding extract_message_properties_from_topic
extract_c2d device_id p rest m hd h =
    ap (λ parts. extract_from (properties_part parts) m)
      (split-c2d device_id (urlencode (p ∷ rest)) hd
        (urlencode-Lacks b'/' (p ∷ rest) h slash-IsReserved refl refl))
    ∙ ap (λ b. extract_from (if b then ok none else ok (some (urlencode (p ∷ rest)))) m)
        (text_eq-inputs p rest)
    ∙ set_entries_of p rest m
    ∙ ap ok (set_entries-urlencode p rest m h)
