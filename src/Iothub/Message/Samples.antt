-- ===== src/Iothub/Message/Samples.antt =====
-- Messages and topics at concrete inputs.
use azure_iot_dev.Prelude.{arith, true, ◌≡◌, refl, some, none, [], ◌∷◌}
use azure_iot_dev.Text.{Text, codes, split, quote, unquote}
use azure_iot_dev.Iothub.Topic.{ok, err, value_error}
use azure_iot_dev.Iothub.Message.{
  Message, Pairs, urlencode, sort_pairs, system_properties, has_duplicates,
  encode_message_properties_in_topic, extract_message_properties_from_topic,
}
use azure_iot_dev.Iothub.Message.Encode.{encode_lem}
use azure_iot_dev.Iothub.Message.Extract.{c2d_topic}
use azure_iot_dev.Iothub.Message.Order.{is_sorted}
use azure_iot_dev.Iothub.Message.Fields.{read_back, blank}
use azure_iot_dev.Iothub.Message.RoundTrip.{message_round_trip}
use azure_iot_dev.Text.Split.{all-Lacks}
use mathlib.Core.List.{Perm}

abbrev empty : Message
empty = record {
  message_id = none;
  expiry_time_utc = none;
  correlation_id = none;
  user_id = none;
  content_encoding = none;
  content_type = none;
  output_name = none;
  ack = none;
  iothub_interface_id = none;
  custom_properties = [];
}

abbrev custom : Pairs
custom = (codes "b", codes "2&") ∷ (codes "a", codes "1") ∷ []

-- The system properties come first, and the custom ones are sorted.
encode_message :
    encode_message_properties_in_topic
      (record empty { message_id = some (codes "m 1") })
      custom
      (codes "devices/d/messages/events/")
    ≡ ok (codes "devices/d/messages/events/%24.mid=m%201&a=1&b=2%26")
unfolding encode_message_properties_in_topic system_properties urlencode sort_pairs has_duplicates
    quote
encode_message = refl

-- A key without `=` is set to None, and an empty value to an empty string.
extract_message :
    extract_message_properties_from_topic
      (codes "devices/d/messages/devicebound/%24.mid=m&a&b=")
      empty
    ≡ ok (record empty {
      message_id = some (codes "m");
      custom_properties = (codes "a", none) ∷ (codes "b", some []) ∷ [];
    })
unfolding extract_message_properties_from_topic split unquote
extract_message = refl

-- Two properties that have the same key once they are converted.
encode_duplicates :
    encode_message_properties_in_topic empty
      ((codes "a", codes "1") ∷ (codes "a", codes "2") ∷ [])
      []
    ≡ err value_error
unfolding has_duplicates
encode_duplicates = encode_lem empty ((codes "a", codes "1") ∷ (codes "a", codes "2") ∷ []) []

abbrev telemetry : Message
telemetry = record empty {
  message_id = some (codes "m 1");
  correlation_id = some (codes "c/1");
  content_type = some (codes "text/plain");
  output_name = some (codes "out");
  user_id = some [];
}

message_round_trip_example :
    (sorted : Pairs) × (properties : Text) × Perm sorted custom
    × (is_sorted sorted ≡ true)
    × (encode_message_properties_in_topic telemetry custom [] ≡ ok properties)
    × (extract_message_properties_from_topic (c2d_topic (codes "d1") properties) blank
        ≡ ok (read_back telemetry sorted))
unfolding has_duplicates
message_round_trip_example =
    message_round_trip (codes "d1") telemetry custom (all-Lacks b'/' (codes "d1") refl)
      (omega arith) (omega arith) (refl, (refl, tt)) refl
