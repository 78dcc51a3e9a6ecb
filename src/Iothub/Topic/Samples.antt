-- ===== src/Iothub/Topic/Samples.antt =====
-- Topics at concrete inputs.
use azure_iot_dev.Prelude.{◌≡◌, refl, some, []}
use azure_iot_dev.Text.{Text, codes, unquote, split, contains, lstrip}
use azure_iot_dev.Iothub.Topic.{
  ok, err, index_error, get_topic_base, get_method_request_id_from_topic, get_input_name_from_topic,
  get_property, extract_properties,
}

-- `re boot` and `a/1`, percent-encoded.
read_method_topic :
    get_method_request_id_from_topic (codes "$iothub/methods/POST/re%20boot/?$rid=a%2F1")
    ≡ ok (codes "a/1")
unfolding get_method_request_id_from_topic get_property extract_properties unquote split contains
    lstrip
read_method_topic = refl

-- A method topic without a query raises `IndexError`, not `ValueError`.
read_no_query :
    get_method_request_id_from_topic (codes "$iothub/methods/POST/name") ≡ err index_error
unfolding get_method_request_id_from_topic get_property extract_properties unquote split contains
    lstrip
read_no_query = refl

read_input_name :
    get_input_name_from_topic (codes "devices/d/modules/m/inputs/in%201/a=b") ≡ ok (codes "in 1")
unfolding get_input_name_from_topic unquote split
read_input_name = refl

-- An empty module id counts as none.
topic_base : get_topic_base (codes "d") (some []) ≡ codes "devices/d"
unfolding get_topic_base
topic_base = refl

abbrev reboot : Text
reboot = codes "re boot/?"

abbrev id : Text
id = codes "a&1=$"
