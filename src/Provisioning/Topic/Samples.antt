-- ===== src/Provisioning/Topic/Samples.antt =====
-- The topics of the provisioning client at concrete inputs.
use azure_iot_dev.Prelude.{◌≡◌, refl, true, [], ◌∷◌}
use azure_iot_dev.Text.{Text, codes, starts_with, contains, split, quote, unquote}
use azure_iot_dev.Iothub.Topic.{value_error, set_property}
use azure_iot_dev.Provisioning.Topic.{
  properties, failure, topic_error, unbound_local_error, get_topic_base, get_topic_for_response,
  get_query_topic_for_publish, is_dps_response_topic, has_value, add_pairs,
  extract_properties_from_dps_response_topic,
}

query_topic :
    get_query_topic_for_publish (codes "a b") (codes "4.d")
    ≡ codes "$dps/registrations/GET/iotdps-get-operationstatus/?$rid=a%20b&operationId=4.d"
unfolding get_query_topic_for_publish get_topic_base quote
query_topic = refl

abbrev response : Text
response = codes "$dps/registrations/res/202/?$rid=9&retry-after=3"

response_topic_known : is_dps_response_topic response ≡ true
unfolding is_dps_response_topic get_topic_for_response get_topic_base contains starts_with
response_topic_known = refl

response_properties :
    extract_properties_from_dps_response_topic response
    ≡ properties ((codes "rid", codes "9") ∷ (codes "retry-after", codes "3") ∷ [])
unfolding extract_properties_from_dps_response_topic split add_pairs has_value set_property unquote
response_properties = refl

duplicate_refused :
    extract_properties_from_dps_response_topic (codes "$dps/registrations/res/202/?$rid=9&rid=8")
    ≡ failure (topic_error value_error)
unfolding extract_properties_from_dps_response_topic split add_pairs has_value set_property unquote
duplicate_refused = refl

no_properties :
    extract_properties_from_dps_response_topic (codes "$dps/registrations/res/202/?$")
    ≡ failure unbound_local_error
unfolding extract_properties_from_dps_response_topic split
no_properties = refl

-- A duplicate of a key with an empty value is not refused.
empty_duplicate_accepted :
    extract_properties_from_dps_response_topic (codes "$dps/registrations/res/202/?$rid=&rid=8")
    ≡ properties ((codes "rid", codes "8") ∷ [])
unfolding extract_properties_from_dps_response_topic split add_pairs has_value set_property unquote
empty_duplicate_accepted = refl
