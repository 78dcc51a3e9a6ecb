-- ===== src/Provisioning/Topic.antt =====
-- The MQTT topics of
-- azure-iot-device/azure/iot/device/provisioning/pipeline/mqtt_topic_provisioning.py.
pub mod Parse
pub mod Samples
use azure_iot_dev.Prelude.{
  Bool, true, false, Option, none, some, List, [], ◌∷◌, ◌++◌, if◌then◌else◌,
}
use azure_iot_dev.Text.{Text, codes, text_eq, contains, split, quote, unquote}
use azure_iot_dev.Iothub.Topic.{
  TopicError, Result, ok, err, ◌>>=◌, value_error, index_error, at_0, at_1, Properties,
  set_property,
}

-- What the functions may raise beside the errors of the other topics: a variable that was never
-- assigned.
pub data DpsError : Type 0 where
  topic_error : TopicError → DpsError
  unbound_local_error : DpsError

pub data DpsResult : Type 0 where
  properties : Properties → DpsResult
  failure : DpsError → DpsResult

unfoldable pub get_topic_base : Text
get_topic_base = codes "$dps/registrations/"

unfoldable pub get_register_topic_for_subscribe : Text
unfolding get_topic_base
get_register_topic_for_subscribe = get_topic_base ++ codes "res/#"

unfoldable pub get_register_topic_for_publish : Text → Text
unfolding get_topic_base
get_register_topic_for_publish request_id =
    get_topic_base ++ codes "PUT/iotdps-register/?$rid=" ++ quote request_id

unfoldable pub get_query_topic_for_publish : Text → Text → Text
unfolding get_topic_base
get_query_topic_for_publish request_id operation_id =
    get_topic_base
    ++ codes "GET/iotdps-get-operationstatus/?$rid="
    ++ quote request_id
    ++ codes "&operationId="
    ++ quote operation_id

unfoldable pub get_topic_for_response : Text
unfolding get_topic_base
get_topic_for_response = get_topic_base ++ codes "res/"

unfoldable pub is_dps_response_topic : Text → Bool
unfolding get_topic_for_response
is_dps_response_topic topic = contains get_topic_for_response topic

-- The truth of `d.get(key)`: an empty value is as good as none.
unfoldable pub has_value : Text → Properties → Bool
has_value key [] = false
has_value key ((k, []) ∷ rest) = if text_eq k key then false else has_value key rest
has_value key ((k, c ∷ v) ∷ rest) = if text_eq k key then true else has_value key rest

-- A key is stored unless it has a value already.
abbrev pub add_property : Text → Text → Properties → Result Properties
add_property key value d =
    if has_value key d then err value_error else ok (set_property key value d)

-- The loop over the key-value pairs.
unfoldable pub add_pairs : List Text → Properties → Result Properties
unfolding has_value set_property
add_pairs [] d = ok d
add_pairs (entry ∷ rest) d =
    let later = λ (made : Properties). add_pairs rest made in
    do
      key ← at_0 (split b'=' entry)
      value ← at_1 (split b'=' entry)
      made ← add_property (unquote key) (unquote value) d
      later made

abbrev pub of_result : Result Properties → DpsResult
of_result (ok d) = properties d
of_result (err e) = failure (topic_error e)

-- `key_value_dict` is assigned only if there are properties.
abbrev pub read_properties : Text → DpsResult
read_properties [] = failure unbound_local_error
read_properties (c ∷ s) = of_result (add_pairs (split b'&' (c ∷ s)) [])

-- `topic_parts[2]`
abbrev pub third : List Text → Option Text
third (p0 ∷ p1 ∷ p2 ∷ rest) = some p2
third _ = none

abbrev pub properties_of : Option Text → DpsResult
properties_of none = failure (topic_error index_error)
properties_of (some part) = read_properties part

unfoldable pub extract_properties_from_dps_response_topic : Text → DpsResult
unfolding add_pairs
extract_properties_from_dps_response_topic topic = properties_of (third (split b'$' topic))

-- `url_parts[3]`
abbrev pub status_part : List Text → Result Text
status_part (p0 ∷ p1 ∷ p2 ∷ p3 ∷ rest) = ok (unquote p3)
status_part _ = err index_error

unfoldable pub extract_status_code_from_dps_response_topic : Text → Result Text
extract_status_code_from_dps_response_topic topic = do
  url ← at_1 (split b'$' topic)
  status_part (split b'/' url)
