-- ===== src/Provisioning/Topic/Parse.antt =====
-- The properties and the status code of a response topic are read back.
use mathlib.Core.List.{append_assoc}
use azure_iot_dev.Prelude.{ℕ, ◌≡◌, refl, ap, ◌∙◌, false, List, [], ◌∷◌, ◌++◌, arith, All}
use azure_iot_dev.Text.{Text, codes, split, quote}
use azure_iot_dev.Text.Split.{Lacks, all-Lacks, split-append, split-Lacks, Lacks-append}
use azure_iot_dev.Text.Quote.{
  Bytes, equals-IsReserved, ampersand-IsReserved, slash-IsReserved, dollar-IsReserved,
  unquote-quote, quote-Lacks,
}
use azure_iot_dev.Iothub.Topic.{ok, set_property}
use azure_iot_dev.Iothub.Message.{Pairs, encode_pair, urlencode, has_key, has_duplicates}
use azure_iot_dev.Iothub.Message.Extract.{PairBytes, encode_pair-Lacks, urlencode-Lacks}
use azure_iot_dev.Iothub.Message.Keys.{AllNew, AllNew-snoc, nil-AllNew}
use azure_iot_dev.Provisioning.Topic.{
  has_value, add_property, add_pairs, properties, of_result, read_properties, third, properties_of,
  extract_properties_from_dps_response_topic, extract_status_code_from_dps_response_topic,
}

add_property-new :
    (key value : Text) (d : Pairs)
    → has_key key d ≡ false
    → add_property key value d ≡ ok (d ++ (key, value) ∷ [])
unfolding has_key has_value set_property
add_property-new key value [] h = refl
add_property-new key value ((k, []) ∷ d) h = ground (arith, add_property-new key value d)
add_property-new key value ((k, c ∷ v) ∷ d) h = ground (arith, add_property-new key value d)

-- An entry is split into its key and its value.
split-pair :
    (key value : Text)
    → Bytes key
    → Bytes value
    → split b'=' (encode_pair (key, value)) ≡ quote key ∷ quote value ∷ []
split-pair key value hk hv =
    split-append b'=' (quote key) (quote value) (quote-Lacks b'=' key hk equals-IsReserved)
    ∙ ap (λ rest. quote key ∷ rest)
        (split-Lacks b'=' (quote value) (quote-Lacks b'=' value hv equals-IsReserved))

add_pairs-one :
    (key value : Text) (entries : List Text) (d : Pairs)
    → Bytes key
    → Bytes value
    → has_key key d ≡ false
    → add_pairs (encode_pair (key, value) ∷ entries) d ≡ add_pairs entries (d ++ (key, value) ∷ [])
unfolding add_pairs
add_pairs-one key value entries d hk hv new = rw (
  split-pair key value hk hv,
  unquote-quote key hk,
  unquote-quote value hv,
  add_property-new key value d new,
)

pub add_pairs-urlencode :
    (p : Text × Text) (rest d : Pairs)
    → All PairBytes (p ∷ rest)
    → has_duplicates (p ∷ rest) ≡ false
    → AllNew d (p ∷ rest)
    → add_pairs (split b'&' (urlencode (p ∷ rest))) d ≡ ok (d ++ p ∷ rest)
unfolding urlencode has_duplicates
add_pairs-urlencode (key, value) [] d h single new =
    ap (λ entries. add_pairs entries d)
      (split-Lacks b'&' (encode_pair (key, value))
        (encode_pair-Lacks b'&' (key, value) h.0 ampersand-IsReserved refl))
    ∙ add_pairs-one key value [] d h.0.0 h.0.1 new.0
    ∙ unfold add_pairs in refl
add_pairs-urlencode (key, value) (next ∷ rest) d h single new =
    ap (λ entries. add_pairs entries d)
      (split-append b'&' (encode_pair (key, value)) (urlencode (next ∷ rest))
        (encode_pair-Lacks b'&' (key, value) h.0 ampersand-IsReserved refl))
    ∙ add_pairs-one key value _ d h.0.0 h.0.1 new.0
    ∙ add_pairs-urlencode next rest (d ++ (key, value) ∷ []) h.1 (ground arith)
        (AllNew-snoc key value d (next ∷ rest) (ground arith) new.1)
    ∙ ap ok (append_assoc d ((key, value) ∷ []) (next ∷ rest))

-- `$dps/registrations/res/<status>/?$<properties>`
abbrev pub response_topic : Text → Text → Text
response_topic status query =
    b'$' ∷ (codes "dps/registrations/res/" ++ quote status ++ codes "/?") ++ b'$' ∷ query

url-Lacks :
    (status : Text)
    → Bytes status
    → Lacks b'$' (codes "dps/registrations/res/" ++ quote status ++ codes "/?")
url-Lacks status h =
    Lacks-append b'$' (codes "dps/registrations/res/") (quote status ++ codes "/?")
      (all-Lacks b'$' (codes "dps/registrations/res/") refl)
      (Lacks-append b'$' (quote status) (codes "/?") (quote-Lacks b'$' status h dollar-IsReserved)
        (all-Lacks b'$' (codes "/?") refl))

split-response :
    (status query : Text)
    → Bytes status
    → Lacks b'$' query
    → split b'$' (response_topic status query)
      ≡ [] ∷ (codes "dps/registrations/res/" ++ quote status ++ codes "/?") ∷ query ∷ []
split-response status query h hq =
    split-append b'$' [] _ tt
    ∙ ap (λ t. [] ∷ t) (split-append b'$' _ query (url-Lacks status h))
    ∙ ap (λ t. [] ∷ (codes "dps/registrations/res/" ++ quote status ++ codes "/?") ∷ t)
        (split-Lacks b'$' query hq)

split-url :
    (status : Text)
    → Bytes status
    → split b'/' (codes "dps/registrations/res/" ++ quote status ++ codes "/?")
      ≡ codes "dps" ∷ codes "registrations" ∷ codes "res" ∷ quote status ∷ codes "?" ∷ []
split-url status h =
    split-append b'/' (codes "dps") _ (all-Lacks b'/' (codes "dps") refl)
    ∙ ap (λ t. codes "dps" ∷ t)
        (split-append b'/' (codes "registrations") _ (all-Lacks b'/' (codes "registrations") refl))
    ∙ ap (λ t. codes "dps" ∷ codes "registrations" ∷ t)
        (split-append b'/' (codes "res") _ (all-Lacks b'/' (codes "res") refl))
    ∙ ap (λ t. codes "dps" ∷ codes "registrations" ∷ codes "res" ∷ t)
        (split-append b'/' (quote status) (codes "?") (quote-Lacks b'/' status h slash-IsReserved)
          ∙ ap (λ t. quote status ∷ t)
              (split-Lacks b'/' (codes "?") (all-Lacks b'/' (codes "?") refl)))

status_lem :
    (status query : Text)
    → Bytes status
    → Lacks b'$' query
    → extract_status_code_from_dps_response_topic (response_topic status query) ≡ ok status
unfolding extract_status_code_from_dps_response_topic
status_lem status query h hq =
    rw (split-response status query h hq, split-url status h, unquote-quote status h)

read_properties-append :
    (s : Text) (c : ℕ) (t : Text)
    → read_properties (s ++ c ∷ t) ≡ of_result (add_pairs (split b'&' (s ++ c ∷ t)) [])
read_properties-append [] c t = refl
read_properties-append (b ∷ s) c t = refl

read_properties-urlencode :
    (p : Text × Text) (rest : Pairs)
    → All PairBytes (p ∷ rest)
    → has_duplicates (p ∷ rest) ≡ false
    → read_properties (urlencode (p ∷ rest)) ≡ properties (p ∷ rest)
unfolding urlencode
read_properties-urlencode (key, value) [] h single =
    read_properties-append (quote key) b'=' (quote value)
    ∙ ap of_result
        (add_pairs-urlencode (key, value) [] [] h single (nil-AllNew ((key, value) ∷ [])))
read_properties-urlencode (key, value) (next ∷ rest) h single =
    read_properties-append (encode_pair (key, value)) b'&' (urlencode (next ∷ rest))
    ∙ ap of_result (
        add_pairs-urlencode (key, value) (next ∷ rest) [] h single
          (nil-AllNew ((key, value) ∷ next ∷ rest)))

-- A response topic with at least one property, whose properties have different keys and are written
-- as `urlencode` does, and whose status code is percent-encoded: the properties are read back, in
-- order, and so is the status code.
pub response_read :
    (status : Text) (p : Text × Text) (rest : Pairs)
    → Bytes status
    → All PairBytes (p ∷ rest)
    → has_duplicates (p ∷ rest) ≡ false
    → (extract_properties_from_dps_response_topic (response_topic status (urlencode (p ∷ rest)))
        ≡ properties (p ∷ rest))
      × (extract_status_code_from_dps_response_topic (response_topic status (urlencode (p ∷ rest)))
          ≡ ok status)
unfolding extract_properties_from_dps_response_topic
response_read status p rest hs h single =
    let query = urlencode-Lacks b'$' (p ∷ rest) h dollar-IsReserved refl refl in
    (
      ap (λ parts. properties_of (third parts))
            (split-response status (urlencode (p ∷ rest)) hs query)
          ∙ read_properties-urlencode p rest h single,
      status_lem status (urlencode (p ∷ rest)) hs query,
    )
