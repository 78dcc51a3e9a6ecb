-- ===== src/Iothub/Message.antt =====
-- The properties of a message in a topic: `encode_message_properties_in_topic` and
-- `extract_message_properties_from_topic` of
-- azure-iot-device/azure/iot/device/iothub/pipeline/mqtt_topic_iothub.py, over the class of
-- azure-iot-device/azure/iot/device/iothub/models/message.py. The fields that `str` or `isoformat`
-- convert hold the converted text.
pub mod Encode
pub mod Keys
pub mod Extract
pub mod Order
pub mod Fields
pub mod Custom
pub mod RoundTrip
pub mod Samples
use azure_iot_dev.Prelude.{
  ℕ, Bool, true, false, ◌&&◌, ◌||◌, Option, none, some, List, [], ◌∷◌, ◌++◌, ltb, ◌==◌,
  if◌then◌else◌,
}
use azure_iot_dev.Text.{Text, codes, text_eq, split, quote, unquote}
use azure_iot_dev.Iothub.Topic.{Result, ok, err, value_error}

-- The payload and the methods that do not concern topics are left out.
pub record Message : Type 0 where
  pub message_id : Option Text
  pub expiry_time_utc : Option Text
  pub correlation_id : Option Text
  pub user_id : Option Text
  pub content_encoding : Option Text
  pub content_type : Option Text
  pub output_name : Option Text
  pub ack : Option Text
  pub iothub_interface_id : Option Text
  pub custom_properties : List (Text × Option Text)

-- `custom_properties[key] = value`
unfoldable pub set_custom :
    Text → Option Text → List (Text × Option Text) → List (Text × Option Text)
set_custom key value [] = (key, value) ∷ []
set_custom key value ((k, v) ∷ rest) =
    if text_eq k key then (k, value) ∷ rest else (k, v) ∷ set_custom key value rest

-- One key and its value, set on a message that is received.
unfoldable pub set_on_message : Text → Option Text → Message → Message
unfolding set_custom
set_on_message key value m =
    if text_eq key (codes "$.to")
    then m
    else if text_eq key (codes "$.mid")
    then record m { message_id = value }
    else if text_eq key (codes "$.cid")
    then record m { correlation_id = value }
    else if text_eq key (codes "$.uid")
    then record m { user_id = value }
    else if text_eq key (codes "$.ct")
    then record m { content_type = value }
    else if text_eq key (codes "$.ce")
    then record m { content_encoding = value }
    else if text_eq key (codes "$.exp")
    then record m { expiry_time_utc = value }
    else if text_eq key (codes "iothub-ack")
    then record m { ack = value }
    else record m { custom_properties = set_custom key value m.custom_properties }

-- The body of the loop, with the parts of the entry at `=`; there is always a first part.
abbrev pub set_pair : List Text → Message → Message
set_pair [] m = m
set_pair (key ∷ []) m = set_on_message (unquote key) none m
set_pair (key ∷ value ∷ rest) m = set_on_message (unquote key) (some (unquote value)) m

unfoldable pub set_entries : List Text → Message → Message
unfolding set_on_message
set_entries [] m = m
set_entries (entry ∷ rest) m = set_entries rest (set_pair (split b'=' entry) m)

abbrev pub second : List Text → Option Text
second (a ∷ b ∷ rest) = some b
second _ = none

-- The part of the topic that holds the properties.
abbrev pub properties_part : List Text → Result (Option Text)
properties_part (p0 ∷ p1 ∷ p2 ∷ p3 ∷ []) =
    if text_eq p3 (codes "devicebound") then ok none else err value_error
properties_part (p0 ∷ p1 ∷ p2 ∷ p3 ∷ p4 ∷ rest) =
    if text_eq p4 (codes "inputs")
    then ok (second rest)
    else if text_eq p3 (codes "devicebound")
    then ok (some p4)
    else err value_error
properties_part _ = err value_error

abbrev pub extract_from : Result (Option Text) → Message → Result Message
extract_from (err e) m = err e
extract_from (ok none) m = ok m
extract_from (ok (some [])) m = ok m
extract_from (ok (some (c ∷ properties))) m = ok (set_entries (split b'&' (c ∷ properties)) m)

unfoldable pub extract_message_properties_from_topic : Text → Message → Result Message
unfolding set_entries
extract_message_properties_from_topic topic m = extract_from (properties_part (split b'/' topic)) m

abbrev pub Pairs : Type 0
Pairs = List (Text × Text)

-- A system property, if the field is set and not empty.
abbrev pub property_of : Text → Option Text → Pairs
property_of key none = []
property_of key (some []) = []
property_of key (some (c ∷ s)) = (key, c ∷ s) ∷ []

unfoldable pub system_properties : Message → Pairs
system_properties m =
    property_of (codes "$.on") m.output_name
    ++ property_of (codes "$.mid") m.message_id
    ++ property_of (codes "$.cid") m.correlation_id
    ++ property_of (codes "$.uid") m.user_id
    ++ property_of (codes "$.ct") m.content_type
    ++ property_of (codes "$.ce") m.content_encoding
    ++ property_of (codes "$.ifid") m.iothub_interface_id
    ++ property_of (codes "$.exp") m.expiry_time_utc

abbrev pub encode_pair : Text × Text → Text
encode_pair (key, value) = quote key ++ b'=' ∷ quote value

-- `urllib.parse.urlencode(pairs, quote_via=urllib.parse.quote)`
unfoldable pub urlencode : Pairs → Text
urlencode [] = []
urlencode (pair ∷ []) = encode_pair pair
urlencode (pair ∷ next ∷ rest) = encode_pair pair ++ b'&' ∷ urlencode (next ∷ rest)

-- Python's order of strings, and of pairs of them.
unfoldable pub text_lt : Text → Text → Bool
text_lt [] [] = false
text_lt [] (c ∷ t) = true
text_lt (c ∷ s) [] = false
text_lt (c ∷ s) (d ∷ t) = ltb c d || (c == d && text_lt s t)

unfoldable pub pair_lt : Text × Text → Text × Text → Bool
unfolding text_lt
pair_lt (k, v) (l, w) = text_lt k l || (text_eq k l && text_lt v w)

unfoldable pub insert_sorted : Text × Text → Pairs → Pairs
unfolding pair_lt
insert_sorted p [] = p ∷ []
insert_sorted p (q ∷ rest) = if pair_lt q p then q ∷ insert_sorted p rest else p ∷ q ∷ rest

-- `list.sort`; equal pairs cannot be told apart.
unfoldable pub sort_pairs : Pairs → Pairs
unfolding insert_sorted
sort_pairs [] = []
sort_pairs (p ∷ rest) = insert_sorted p (sort_pairs rest)

unfoldable pub has_key : Text → Pairs → Bool
has_key key [] = false
has_key key ((k, v) ∷ rest) = text_eq k key || has_key key rest

-- `len(keys) != len(set(keys))`
unfoldable pub has_duplicates : Pairs → Bool
unfolding has_key
has_duplicates [] = false
has_duplicates ((k, v) ∷ rest) = has_key k rest || has_duplicates rest

abbrev pub separator : Pairs → Text
separator [] = []
separator (pair ∷ rest) = b'&' ∷ []

-- The custom properties as `str` makes them, with the encoding of the system properties.
abbrev pub append_custom : Pairs → Pairs → Text → Result Text
append_custom [] system topic = ok topic
append_custom (pair ∷ rest) system topic =
    if has_duplicates (sort_pairs (pair ∷ rest))
    then err value_error
    else ok ((topic ++ separator system) ++ urlencode (sort_pairs (pair ∷ rest)))

-- `custom` stands for the items of `custom_properties`, each converted by `str`.
unfoldable pub encode_message_properties_in_topic : Message → Pairs → Text → Result Text
encode_message_properties_in_topic m custom topic =
    append_custom custom (system_properties m) (topic ++ urlencode (system_properties m))
