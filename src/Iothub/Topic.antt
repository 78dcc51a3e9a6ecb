-- ===== src/Iothub/Topic.antt =====
-- The MQTT topics of azure-iot-device/azure/iot/device/iothub/pipeline/mqtt_topic_iothub.py: those
-- that are subscribed and published to, and what is read from those that come in.
pub mod Parse
pub mod Samples
use azure_iot_dev.Prelude.{
  ℕ, Bool, true, false, ◌&&◌, Option, none, some, List, [], ◌∷◌, ◌++◌, if◌then◌else◌,
}
use azure_iot_dev.Text.{Text, codes, text_eq, starts_with, contains, split, lstrip, quote, unquote}

-- `ValueError`, and what Python raises at a list index or a key that is not there.
pub data TopicError : Type 0 where
  value_error index_error key_error : TopicError

pub data Result {ℓ} (A : Type ℓ) : Type ℓ where
  ok : A → Result A
  err : TopicError → Result A

infixl 5 ◌>>=◌
abbrev pub ◌>>=◌ {ℓ κ} : {A : Type ℓ} {B : Type κ} → Result A → (A → Result B) → Result B
ok a >>= f = f a
err e >>= f = err e

-- `parts[i]`, for the indices that the code uses.
abbrev pub at_0 : List Text → Result Text
at_0 (a ∷ rest) = ok a
at_0 [] = err index_error

abbrev pub at_1 : List Text → Result Text
at_1 (a ∷ b ∷ rest) = ok b
at_1 _ = err index_error

-- Python's truth of an optional string.
abbrev pub truthy : Option Text → Bool
truthy none = false
truthy (some []) = false
truthy (some (c ∷ s)) = true

unfoldable pub get_topic_base : Text → Option Text → Text
get_topic_base device_id (some (c ∷ module_id)) =
    codes "devices/" ++ device_id ++ codes "/modules/" ++ c ∷ module_id
get_topic_base device_id _ = codes "devices/" ++ device_id

unfoldable pub get_c2d_topic_for_subscribe : Text → Text
unfolding get_topic_base
get_c2d_topic_for_subscribe device_id =
    get_topic_base device_id none ++ codes "/messages/devicebound/#"

unfoldable pub get_input_topic_for_subscribe : Text → Option Text → Text
unfolding get_topic_base
get_input_topic_for_subscribe device_id module_id =
    get_topic_base device_id module_id ++ codes "/inputs/#"

abbrev pub get_method_topic_for_subscribe : Text
get_method_topic_for_subscribe = codes "$iothub/methods/POST/#"

abbrev pub get_twin_response_topic_for_subscribe : Text
get_twin_response_topic_for_subscribe = codes "$iothub/twin/res/#"

abbrev pub get_twin_patch_topic_for_subscribe : Text
get_twin_patch_topic_for_subscribe = codes "$iothub/twin/PATCH/properties/desired/#"

unfoldable pub get_telemetry_topic_for_publish : Text → Option Text → Text
unfolding get_topic_base
get_telemetry_topic_for_publish device_id module_id =
    get_topic_base device_id module_id ++ codes "/messages/events/"

unfoldable pub get_method_topic_for_publish : Text → Text → Text
get_method_topic_for_publish request_id status =
    codes "$iothub/methods/res/" ++ (quote status ++ (codes "/?$rid=" ++ quote request_id))

unfoldable pub get_twin_topic_for_publish : Text → Text → Text → Text
get_twin_topic_for_publish method resource_location request_id =
    codes "$iothub/twin/" ++ (method ++ (resource_location ++ (codes "?$rid=" ++ quote request_id)))

unfoldable pub is_c2d_topic : Text → Text → Bool
is_c2d_topic topic device_id =
    contains (codes "devices/" ++ device_id ++ codes "/messages/devicebound") topic

unfoldable pub is_input_topic : Text → Option Text → Option Text → Bool
is_input_topic topic (some (d ∷ device_id)) (some (m ∷ module_id)) =
    contains
      (codes "devices/"
        ++ (d ∷ device_id)
        ++ codes "/modules/"
        ++ (m ∷ module_id)
        ++ codes "/inputs/")
      topic
is_input_topic topic _ _ = false

unfoldable pub is_method_topic : Text → Bool
is_method_topic topic = contains (codes "$iothub/methods/POST") topic

unfoldable pub is_twin_response_topic : Text → Bool
is_twin_response_topic topic = starts_with (codes "$iothub/twin/res/") topic

unfoldable pub is_twin_desired_property_patch_topic : Text → Bool
is_twin_desired_property_patch_topic topic =
    starts_with (codes "$iothub/twin/PATCH/properties/desired") topic

abbrev input_name : List Text → Result Text
input_name (p0 ∷ p1 ∷ p2 ∷ p3 ∷ p4 ∷ p5 ∷ rest) =
    if text_eq p4 (codes "inputs") then ok (unquote p5) else err value_error
input_name _ = err value_error

unfoldable pub get_input_name_from_topic : Text → Result Text
get_input_name_from_topic topic = input_name (split b'/' topic)

-- `parts[3]`, where there are four parts or more.
abbrev pub fourth : List Text → Option Text
fourth (p0 ∷ p1 ∷ p2 ∷ p3 ∷ rest) = some p3
fourth _ = none

abbrev unquoted : Option Text → Result Text
unquoted none = err value_error
unquoted (some part) = ok (unquote part)

unfoldable pub get_method_name_from_topic : Text → Result Text
unfolding is_method_topic
get_method_name_from_topic topic =
    if is_method_topic topic then unquoted (fourth (split b'/' topic)) else err value_error

abbrev pub Properties : Type 0
Properties = List (Text × Text)

-- `d[key] = value`
unfoldable pub set_property : Text → Text → Properties → Properties
set_property key value [] = (key, value) ∷ []
set_property key value ((k, v) ∷ rest) =
    if text_eq k key then (k, value) ∷ rest else (k, v) ∷ set_property key value rest

-- `d[key]`
unfoldable pub get_property : Text → Properties → Result Text
get_property key [] = err key_error
get_property key ((k, v) ∷ rest) = if text_eq k key then ok v else get_property key rest

-- The loop of `_extract_properties`.
unfoldable pub extract_pairs : List Text → Properties → Result Properties
unfolding set_property
extract_pairs [] d = ok d
extract_pairs (entry ∷ rest) d =
    let later = λ (made : Properties). extract_pairs rest made in
    do
      key ← at_0 (split b'=' entry)
      value ← at_1 (split b'=' entry)
      later (set_property (lstrip b'$' (unquote key)) (unquote value) d)

unfoldable pub extract_properties : Text → Result Properties
unfolding extract_pairs
extract_properties properties_str = extract_pairs (split b'&' properties_str) []

-- `_extract_properties(topic.split("?")[1])["rid"]`
abbrev pub request_id_of : Text → Result Text
request_id_of topic = do
  query ← at_1 (split b'?' topic)
  properties ← extract_properties query
  get_property (codes "rid") properties

abbrev has_fourth : List Text → Bool
has_fourth (p0 ∷ p1 ∷ p2 ∷ p3 ∷ rest) = true
has_fourth _ = false

unfoldable pub get_method_request_id_from_topic : Text → Result Text
unfolding is_method_topic
get_method_request_id_from_topic topic =
    if is_method_topic topic && has_fourth (split b'/' topic)
    then request_id_of topic
    else err value_error

unfoldable pub get_twin_request_id_from_topic : Text → Result Text
unfolding is_twin_response_topic
get_twin_request_id_from_topic topic =
    if is_twin_response_topic topic && has_fourth (split b'/' topic)
    then request_id_of topic
    else err value_error

unfoldable pub get_twin_status_code_from_topic : Text → Result Text
unfolding is_twin_response_topic
get_twin_status_code_from_topic topic =
    if is_twin_response_topic topic then unquoted (fourth (split b'/' topic)) else err value_error
