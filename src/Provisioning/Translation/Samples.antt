-- ===== src/Provisioning/Translation/Samples.antt =====
-- The translation of provisioning operations and messages at concrete inputs.
use azure_iot_dev.Prelude.{◌≡◌, refl, [], ◌∷◌, arith}
use azure_iot_dev.Text.{codes, split, quote}
use azure_iot_dev.Text.Split.{all-Lacks}
use azure_iot_dev.Text.Int.{int_of, digits_onto}
use azure_iot_dev.Iothub.Topic.{ok, get_property}
use azure_iot_dev.Iothub.Message.{urlencode, has_duplicates, has_key}
use azure_iot_dev.Provisioning.Topic.{add_pairs, get_query_topic_for_publish, get_topic_base}
use azure_iot_dev.Provisioning.Topic.Parse.{response_topic}
use azure_iot_dev.Provisioning.Translation.{
  Configuration, request, enable_feature, publish, raised, query_params, username, run_op,
  incoming_message, sent_response, found, handle_pipeline_event,
}
use azure_iot_dev.Provisioning.Translation.Messages.{response_goes_up, username_read}

abbrev configuration : Configuration
configuration = record {
  id_scope = codes "0ne0001";
  registration_id = codes "device-1";
  user_agent = codes "py/2.11.0(3.10;Linux)";
}

run_op-query :
    run_op configuration (request (codes "query") (codes "9") (codes "op/7") (codes " "))
    ≡ publish
        (codes "$dps/registrations/GET/iotdps-get-operationstatus/?$rid=9&operationId=op%2F7")
        (codes " ")
unfolding run_op get_query_topic_for_publish get_topic_base quote
run_op-query = refl

run_op-invalid : run_op configuration (enable_feature (codes "twin")) ≡ raised
unfolding run_op
run_op-invalid = refl

response_goes_up_example :
    handle_pipeline_event (
      incoming_message
        (response_topic
          (codes "202")
          (urlencode ((codes "rid", codes "9") ∷ (codes "retry-after", codes "3") ∷ [])))
        (codes "{}"))
    ≡ sent_response (codes "9") 202 (codes "{}") (
        found (
          get_property
            (codes "retry-after")
            ((codes "rid", codes "9") ∷ (codes "retry-after", codes "3") ∷ [])))
unfolding has_duplicates has_key int_of digits_onto get_property
response_goes_up_example =
    response_goes_up (codes "202") (codes "rid", codes "9") ((codes "retry-after", codes "3") ∷ [])
      (codes "{}") (codes "9") 202 (omega arith) (omega arith) refl refl refl

username_read_example :
    (split b'/' (username configuration)
      ≡ codes "0ne0001"
        ∷ codes "registrations"
        ∷ codes "device-1"
        ∷ urlencode (query_params configuration)
        ∷ [])
    × (add_pairs (split b'&' (urlencode (query_params configuration))) []
        ≡ ok (query_params configuration))
username_read_example =
    username_read configuration (all-Lacks b'/' (codes "0ne0001") refl)
      (all-Lacks b'/' (codes "device-1") refl) (omega arith)
