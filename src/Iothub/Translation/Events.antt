-- ===== src/Iothub/Translation/Events.antt =====
-- The messages of the service go up as the events that their topics name.
use mathlib.Core.List.{append_assoc}
use azure_iot_dev.Prelude.{
  ℕ, ◌≡◌, refl, sym, ap, ◌∙◌, Bool, true, false, Option, some, [], ◌∷◌, ◌++◌, arith, All,
  if◌then◌else◌,
}
use azure_iot_dev.Text.{Text, codes, starts_with, contains}
use azure_iot_dev.Text.Split.{Lacks}
use azure_iot_dev.Text.Quote.{Bytes}
use azure_iot_dev.Text.Int.{int_of}
use azure_iot_dev.Iothub.Topic.{
  Result, ok, is_c2d_topic, is_input_topic, is_method_topic, is_twin_response_topic,
  get_method_name_from_topic, get_method_request_id_from_topic, get_twin_request_id_from_topic,
  get_twin_status_code_from_topic,
}
use azure_iot_dev.Iothub.Topic.Parse.{
  method_topic, twin_response_topic, method_topic_read, twin_response_read,
}
use azure_iot_dev.Iothub.Message.{Pairs, urlencode}
use azure_iot_dev.Iothub.Message.Extract.{PairBytes, c2d_topic, set_pairs, extract_c2d}
use azure_iot_dev.Iothub.Translation.{
  Configuration, Event, incoming_message, c2d_message, method_request, response, empty_message,
  method_of, response_of, handle_pipeline_event,
}
use azure_iot_dev.Iothub.Translation.Names.{
  method_topic-not_c2d, method_topic-not_input, twin_topic-not_c2d, twin_topic-not_input,
  twin_topic-not_method,
}

method_topic_lem : (name request_id : Text) → is_method_topic (method_topic name request_id) ≡ true
unfolding is_method_topic contains starts_with
method_topic_lem name request_id = refl

twin_topic_lem :
    (status request_id : Text)
    → is_twin_response_topic (twin_response_topic status request_id) ≡ true
unfolding is_twin_response_topic starts_with
twin_topic_lem status request_id = refl

third_branch :
    (b c d : Bool) (x y z w : Option Event)
    → b ≡ false
    → c ≡ false
    → d ≡ true
    → (if b then x else if c then y else if d then z else w) ≡ z
third_branch b c d x y z w hb hc hd = rw (hb, hc, hd) refl

fourth_branch :
    (b c d e : Bool) (x y z w v : Option Event)
    → b ≡ false
    → c ≡ false
    → d ≡ false
    → e ≡ true
    → (if b then x else if c then y else if d then z else if e then w else v) ≡ w
fourth_branch b c d e x y z w v hb hc hd he = rw (hb, hc, hd, he) refl

method_of_lem :
    (r n : Result Text) (v : Option Text) {request_id name value : Text}
    → r ≡ ok request_id
    → n ≡ ok name
    → v ≡ some value
    → method_of r n v ≡ some (method_request request_id name value)
method_of_lem r n v hr hn hv = rw (hr, hn, hv) refl

response_of_lem :
    (r s : Result Text) (payload : Text) {request_id status : Text} {n : ℕ}
    → r ≡ ok request_id
    → s ≡ ok status
    → int_of status ≡ some n
    → response_of r s payload ≡ some (response request_id n payload)
response_of_lem r s payload hr hs number = rw (hr, hs, number) refl

-- A message on the topic of a direct method, with any name and request id percent-encoded as the
-- service does, whose payload can be decoded, goes up as the request of that method with that id and
-- the decoded payload, and as nothing else, whatever the device, the module and the ids are called.
pub method_request_goes_up :
    (loads : Text → Option Text) (c : Configuration) (name request_id payload value : Text)
    → Bytes name
    → Bytes request_id
    → loads payload ≡ some value
    → handle_pipeline_event loads c (incoming_message (method_topic name request_id) payload)
      ≡ some (method_request request_id name value)
unfolding handle_pipeline_event
method_request_goes_up loads c name request_id payload value hn hr decoded =
    let topic = method_topic name request_id in
    let read = method_topic_read name request_id hn hr in
    third_branch (is_c2d_topic topic c.device_id)
      (is_input_topic topic (some c.device_id) c.module_id) (is_method_topic topic) _ _
      (method_of (get_method_request_id_from_topic topic) (get_method_name_from_topic topic)
        (loads payload))
      _ (method_topic-not_c2d name request_id hn hr c.device_id)
      (method_topic-not_input name request_id hn hr (some c.device_id) c.module_id)
      (method_topic_lem name request_id)
    ∙ method_of_lem (get_method_request_id_from_topic topic) (get_method_name_from_topic topic)
        (loads payload) read.1 read.0 decoded

-- A message on the topic of a twin response, with any request id and a status that is a number,
-- both percent-encoded as the service does, goes up as the response to the request with that id and
-- with that number as its status code, and as nothing else, whatever the device, the module and the
-- ids are called.
pub twin_response_goes_up :
    (loads : Text → Option Text) (c : Configuration) (status request_id payload : Text) (n : ℕ)
    → Bytes status
    → Bytes request_id
    → int_of status ≡ some n
    → handle_pipeline_event loads c
        (incoming_message (twin_response_topic status request_id) payload)
      ≡ some (response request_id n payload)
unfolding handle_pipeline_event
twin_response_goes_up loads c status request_id payload n hs hr number =
    let topic = twin_response_topic status request_id in
    let read = twin_response_read status request_id hs hr in
    fourth_branch (is_c2d_topic topic c.device_id)
      (is_input_topic topic (some c.device_id) c.module_id) (is_method_topic topic)
      (is_twin_response_topic topic) _ _ _
      (response_of (get_twin_request_id_from_topic topic) (get_twin_status_code_from_topic topic)
        payload)
      _ (twin_topic-not_c2d status request_id hs hr c.device_id)
      (twin_topic-not_input status request_id hs hr (some c.device_id) c.module_id)
      (twin_topic-not_method status request_id hs hr) (twin_topic_lem status request_id)
    ∙ response_of_lem (get_twin_request_id_from_topic topic) (get_twin_status_code_from_topic topic)
        payload read.1 read.0 number

starts_with-append : (prefix s : Text) → starts_with prefix (prefix ++ s) ≡ true
unfolding starts_with
starts_with-append [] s = refl
starts_with-append (p ∷ prefix) s = ground (arith, starts_with-append prefix s)

contains-append : (needle s : Text) → contains needle (needle ++ s) ≡ true
unfolding contains starts_with
contains-append [] [] = refl
contains-append [] (c ∷ s) = refl
contains-append (p ∷ needle) s = ground (arith, starts_with-append needle s)

c2d_topic_lem :
    (device_id properties : Text) → is_c2d_topic (c2d_topic device_id properties) device_id ≡ true
unfolding is_c2d_topic
c2d_topic_lem device_id properties =
    let start = codes "devices/" in
    let middle = codes "/messages/devicebound" in
    let end = b'/' ∷ properties in
    ap (contains (start ++ device_id ++ middle)) (
      sym (
        append_assoc (start ++ device_id) middle end
        ∙ append_assoc start device_id (middle ++ end)))
    ∙ contains-append (start ++ device_id ++ middle) end

-- A message on the topic of a cloud-to-device message for a device id without a slash, with at least
-- one property, all written as `urlencode` does, goes up as that message, with each property set and
-- its payload.
pub c2d_message_goes_up :
    (loads : Text → Option Text) (c : Configuration) (p : Text × Text) (rest : Pairs)
    (payload : Text)
    → Lacks b'/' c.device_id
    → All PairBytes (p ∷ rest)
    → handle_pipeline_event loads c
        (incoming_message (c2d_topic c.device_id (urlencode (p ∷ rest))) payload)
      ≡ some (c2d_message (set_pairs (p ∷ rest) empty_message) payload)
unfolding handle_pipeline_event
c2d_message_goes_up loads c p rest payload hd h =
    rw
      (
        c2d_topic_lem c.device_id (urlencode (p ∷ rest)),
        extract_c2d c.device_id p rest empty_message hd h,
      )
      refl
