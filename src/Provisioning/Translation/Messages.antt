-- ===== src/Provisioning/Translation/Messages.antt =====
-- The messages of the service become responses, and the user name can be taken apart.
use azure_iot_dev.Prelude.{ℕ, ◌≡◌, refl, ap, ◌∙◌, true, false, some, [], ◌∷◌, All, arith}
use azure_iot_dev.Text.{Text, codes, starts_with, contains, split}
use azure_iot_dev.Text.Split.{Lacks, all-Lacks, split-append, split-Lacks}
use azure_iot_dev.Text.Quote.{Bytes, slash-IsReserved}
use azure_iot_dev.Text.Int.{int_of}
use azure_iot_dev.Iothub.Topic.{ok, get_property}
use azure_iot_dev.Iothub.Message.{Pairs, urlencode, has_duplicates, has_key}
use azure_iot_dev.Iothub.Message.Extract.{PairBytes, urlencode-Lacks}
use azure_iot_dev.Iothub.Message.Keys.{nil-AllNew}
use azure_iot_dev.Provisioning.Topic.{
  is_dps_response_topic, get_topic_for_response, get_topic_base, add_pairs,
}
use azure_iot_dev.Provisioning.Topic.Parse.{response_topic, response_read, add_pairs-urlencode}
use azure_iot_dev.Provisioning.Translation.{
  Configuration, query_params, username, incoming_message, sent_response, found,
  handle_pipeline_event,
}

response_topic_lem :
    (status query : Text) → is_dps_response_topic (response_topic status query) ≡ true
unfolding is_dps_response_topic get_topic_for_response get_topic_base contains starts_with
response_topic_lem status query = refl

-- A message on a response topic, with a percent-encoded status that is a number and with properties
-- of different keys, written as `urlencode` does, that have a request id, goes up as the response
-- to that request with that number as its status code, with the `retry-after` if there is one.
pub response_goes_up :
    (status : Text) (p : Text × Text) (rest : Pairs) (payload request_id : Text) (n : ℕ)
    → Bytes status
    → All PairBytes (p ∷ rest)
    → has_duplicates (p ∷ rest) ≡ false
    → int_of status ≡ some n
    → get_property (codes "rid") (p ∷ rest) ≡ ok request_id
    → handle_pipeline_event
        (incoming_message (response_topic status (urlencode (p ∷ rest))) payload)
      ≡ sent_response request_id n payload (found (get_property (codes "retry-after") (p ∷ rest)))
unfolding handle_pipeline_event
response_goes_up status p rest payload request_id n hs h single number rid =
    let parts = response_read status p rest hs h single in
    rw (response_topic_lem status (urlencode (p ∷ rest)), parts.0, parts.1, rid, number)

query_params-Bytes : (c : Configuration) → Bytes c.user_agent → All PairBytes (query_params c)
query_params-Bytes c h = ground (arith, h)

query_params-single : (c : Configuration) → has_duplicates (query_params c) ≡ false
unfolding has_duplicates has_key
query_params-single c = refl

-- The user name for any configuration whose id scope and registration id have no slash is split at
-- the slashes into them and the query, and the query is read back as the version of the interface
-- and the user agent, whatever characters that has.
pub username_read :
    (c : Configuration)
    → Lacks b'/' c.id_scope
    → Lacks b'/' c.registration_id
    → Bytes c.user_agent
    → (split b'/' (username c)
        ≡ c.id_scope ∷ codes "registrations" ∷ c.registration_id ∷ urlencode (query_params c) ∷ [])
      × (add_pairs (split b'&' (urlencode (query_params c))) [] ≡ ok (query_params c))
unfolding username
username_read c hs hr hu = (
  split-append b'/' c.id_scope _ hs
      ∙ ap (λ t. c.id_scope ∷ t)
          (split-append b'/' (codes "registrations") _
            (all-Lacks b'/' (codes "registrations") refl))
      ∙ ap (λ t. c.id_scope ∷ codes "registrations" ∷ t) (split-append b'/' c.registration_id _ hr)
      ∙ ap (λ t. c.id_scope ∷ codes "registrations" ∷ c.registration_id ∷ t)
          (split-Lacks b'/' (urlencode (query_params c)) (
            urlencode-Lacks b'/' (query_params c) (query_params-Bytes c hu) slash-IsReserved refl
              refl)),
  add_pairs-urlencode (codes "api-version", codes "2019-03-31")
      ((codes "ClientVersion", c.user_agent) ∷ []) [] (query_params-Bytes c hu)
      (query_params-single c) (nil-AllNew (query_params c)),
)
