-- ===== src/Iothub/Topic/Parse.antt =====
-- Topics in the format of the service are read back.
use mathlib.Core.Path.{ap₂}
use mathlib.Core.List.{append_assoc}
use azure_iot_dev.Prelude.{◌≡◌, refl, ap, sym, ◌∙◌, [], ◌∷◌, ◌++◌}
use azure_iot_dev.Text.{Text, codes, starts_with, contains, split, lstrip, quote, unquote}
use azure_iot_dev.Text.Split.{Lacks, all-Lacks, split-append, split-Lacks, Lacks-append}
use azure_iot_dev.Text.Quote.{
  Bytes, equals-IsReserved, ampersand-IsReserved, slash-IsReserved, question-IsReserved,
  unquote-quote, quote-Lacks,
}
use azure_iot_dev.Iothub.Topic.{
  ok, extract_pairs, extract_properties, get_property, request_id_of, get_method_name_from_topic,
  get_method_request_id_from_topic, get_twin_request_id_from_topic, get_twin_status_code_from_topic,
}

-- `/?$rid=<request id>`, behind what a topic begins with.
abbrev pub with_request_id : Text → Text → Text
with_request_id request_id path = path ++ b'/' ∷ b'?' ∷ (codes "$rid" ++ b'=' ∷ quote request_id)

-- `$iothub/methods/POST/<method name>/?$rid=<request id>`
abbrev pub method_topic : Text → Text → Text
method_topic name request_id =
    codes "$iothub"
    ++ b'/'
      ∷ (codes "methods" ++ b'/' ∷ (codes "POST" ++ b'/' ∷ with_request_id request_id (quote name)))

-- `$iothub/twin/res/<status>/?$rid=<request id>`
abbrev pub twin_response_topic : Text → Text → Text
twin_response_topic status request_id =
    codes "$iothub"
    ++ b'/'
      ∷ (codes "twin" ++ b'/' ∷ (codes "res" ++ b'/' ∷ with_request_id request_id (quote status)))

-- The four parts of such a topic, and the rest of its parts.
split-four :
    (p0 p1 p2 p3 rest : Text)
    → Lacks b'/' p0
    → Lacks b'/' p1
    → Lacks b'/' p2
    → Lacks b'/' p3
    → split b'/' (p0 ++ b'/' ∷ (p1 ++ b'/' ∷ (p2 ++ b'/' ∷ (p3 ++ b'/' ∷ rest))))
      ≡ p0 ∷ p1 ∷ p2 ∷ p3 ∷ split b'/' rest
split-four p0 p1 p2 p3 rest h0 h1 h2 h3 =
    split-append b'/' p0 _ h0
    ∙ ap (λ t. p0 ∷ t) (split-append b'/' p1 _ h1)
    ∙ ap (λ t. p0 ∷ p1 ∷ t) (split-append b'/' p2 _ h2)
    ∙ ap (λ t. p0 ∷ p1 ∷ p2 ∷ t) (split-append b'/' p3 _ h3)

extract_pairs-one :
    (entry key value : Text)
    → split b'=' entry ≡ key ∷ value ∷ []
    → extract_pairs (entry ∷ []) [] ≡ ok ((lstrip b'$' (unquote key), unquote value) ∷ [])
unfolding extract_pairs
extract_pairs-one entry key value e = rw e

lstrip-rid : lstrip b'$' (unquote (codes "$rid")) ≡ codes "rid"
unfolding lstrip unquote
lstrip-rid = refl

-- The query of `?$rid=<request id>` is read back.
extract-rid :
    (request_id : Text)
    → Bytes request_id
    → extract_properties (codes "$rid" ++ b'=' ∷ quote request_id)
      ≡ ok ((codes "rid", request_id) ∷ [])
unfolding extract_properties
extract-rid request_id h =
    ap (λ entries. extract_pairs entries [])
      (split-Lacks b'&' (codes "$rid" ++ b'=' ∷ quote request_id) (
        Lacks-append b'&' (codes "$rid=") (quote request_id) (all-Lacks b'&' (codes "$rid=") refl)
          (quote-Lacks b'&' request_id h ampersand-IsReserved)))
    ∙ extract_pairs-one (codes "$rid" ++ b'=' ∷ quote request_id) (codes "$rid") (quote request_id)
        (split-append b'=' (codes "$rid") (quote request_id) (all-Lacks b'=' (codes "$rid") refl)
          ∙ ap (λ t. codes "$rid" ∷ t)
              (split-Lacks b'=' (quote request_id)
                (quote-Lacks b'=' request_id h equals-IsReserved)))
    ∙ ap₂ (λ k v. ok ((k, v) ∷ [])) lstrip-rid (unquote-quote request_id h)

query : Text → Text
query request_id = codes "$rid" ++ b'=' ∷ quote request_id

query-Lacks : (request_id : Text) → Bytes request_id → Lacks b'?' (query request_id)
unfolding query
query-Lacks request_id h =
    Lacks-append b'?' (codes "$rid=") (quote request_id) (all-Lacks b'?' (codes "$rid=") refl)
      (quote-Lacks b'?' request_id h question-IsReserved)

request_id_of-query :
    (topic before request_id : Text)
    → split b'?' topic ≡ before ∷ query request_id ∷ []
    → Bytes request_id
    → request_id_of topic ≡ ok request_id
unfolding query get_property
request_id_of-query topic before request_id e h = rw (e, extract-rid request_id h)

split-query :
    (before request_id : Text)
    → Lacks b'?' before
    → Bytes request_id
    → split b'?' (before ++ b'?' ∷ query request_id) ≡ before ∷ query request_id ∷ []
split-query before request_id hb h =
    split-append b'?' before (query request_id) hb
    ∙ ap (λ t. before ∷ t) (split-Lacks b'?' (query request_id) (query-Lacks request_id h))

-- The request id of a topic that ends in `?$rid=<request id>`.
rid-topic :
    (before request_id : Text)
    → Lacks b'?' before
    → Bytes request_id
    → request_id_of (before ++ b'?' ∷ query request_id) ≡ ok request_id
rid-topic before request_id hb h =
    request_id_of-query (before ++ b'?' ∷ query request_id) before request_id
      (split-query before request_id hb h) h

-- The same where the part before stands as `start ++ quote part ++ "/"`.
rid-part :
    (start part request_id : Text)
    → Lacks b'?' start
    → Bytes part
    → Bytes request_id
    → request_id_of (start ++ with_request_id request_id (quote part)) ≡ ok request_id
unfolding query
rid-part start part request_id hs hp h =
    ap request_id_of (
      ap (λ t. start ++ t) (sym (append_assoc (quote part) (b'/' ∷ []) (b'?' ∷ query request_id)))
      ∙ sym (append_assoc start (quote part ++ b'/' ∷ []) (b'?' ∷ query request_id)))
    ∙ rid-topic (start ++ (quote part ++ b'/' ∷ [])) request_id
        (Lacks-append b'?' start (quote part ++ b'/' ∷ []) hs (
          Lacks-append b'?' (quote part) (b'/' ∷ []) (quote-Lacks b'?' part hp question-IsReserved)
            (refl, tt)))
        h

split-method :
    (name request_id : Text)
    → Bytes name
    → split b'/' (method_topic name request_id)
      ≡ codes "$iothub"
        ∷ codes "methods"
        ∷ codes "POST"
        ∷ quote name
        ∷ split b'/' (b'?' ∷ (codes "$rid" ++ b'=' ∷ quote request_id))
split-method name request_id h =
    split-four (codes "$iothub") (codes "methods") (codes "POST") (quote name) _
      (all-Lacks b'/' (codes "$iothub") refl) (all-Lacks b'/' (codes "methods") refl)
      (all-Lacks b'/' (codes "POST") refl) (quote-Lacks b'/' name h slash-IsReserved)

split-twin :
    (status request_id : Text)
    → Bytes status
    → split b'/' (twin_response_topic status request_id)
      ≡ codes "$iothub"
        ∷ codes "twin"
        ∷ codes "res"
        ∷ quote status
        ∷ split b'/' (b'?' ∷ (codes "$rid" ++ b'=' ∷ quote request_id))
split-twin status request_id h =
    split-four (codes "$iothub") (codes "twin") (codes "res") (quote status) _
      (all-Lacks b'/' (codes "$iothub") refl) (all-Lacks b'/' (codes "twin") refl)
      (all-Lacks b'/' (codes "res") refl) (quote-Lacks b'/' status h slash-IsReserved)

-- The topic of a direct method, with any name and request id percent-encoded as the service does:
-- the name and the request id are read back from it.
pub method_topic_read :
    (name request_id : Text)
    → Bytes name
    → Bytes request_id
    → (get_method_name_from_topic (method_topic name request_id) ≡ ok name)
      × (get_method_request_id_from_topic (method_topic name request_id) ≡ ok request_id)
unfolding get_method_name_from_topic get_method_request_id_from_topic contains
method_topic_read name request_id hn hr = (
  rw (split-method name request_id hn) (ap ok (unquote-quote name hn)),
  rw (split-method name request_id hn) (
      rid-part (codes "$iothub/methods/POST/") name request_id
        (all-Lacks b'?' (codes "$iothub/methods/POST/") refl) hn hr),
)

-- The topic of a twin response, with any status and request id percent-encoded as the service does:
-- the status and the request id are read back from it.
pub twin_response_read :
    (status request_id : Text)
    → Bytes status
    → Bytes request_id
    → (get_twin_status_code_from_topic (twin_response_topic status request_id) ≡ ok status)
      × (get_twin_request_id_from_topic (twin_response_topic status request_id) ≡ ok request_id)
unfolding get_twin_status_code_from_topic get_twin_request_id_from_topic starts_with
twin_response_read status request_id hs hr = (
  rw (split-twin status request_id hs) (ap ok (unquote-quote status hs)),
  rw (split-twin status request_id hs) (
      rid-part (codes "$iothub/twin/res/") status request_id
        (all-Lacks b'?' (codes "$iothub/twin/res/") refl) hs hr),
)
