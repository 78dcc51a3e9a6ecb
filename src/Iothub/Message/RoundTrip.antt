-- ===== src/Iothub/Message/RoundTrip.antt =====
-- A message that is encoded in a topic and read again.
use mathlib.Core.List.{Perm}
use azure_iot_dev.Prelude.{◌≡◌, refl, ap, ◌∙◌, true, false, [], ◌∷◌, ◌++◌, All}
use azure_iot_dev.Text.{Text}
use azure_iot_dev.Text.Split.{Lacks}
use azure_iot_dev.Iothub.Topic.{ok}
use azure_iot_dev.Iothub.Message.{
  Message, Pairs, system_properties, has_duplicates, properties_part, extract_from,
  extract_message_properties_from_topic, encode_message_properties_in_topic, urlencode, sort_pairs,
}
use azure_iot_dev.Iothub.Message.Extract.{set_pairs, PairBytes, c2d_topic, split-c2d, extract_c2d}
use azure_iot_dev.Iothub.Message.Order.{
  is_sorted, sorted-sort_pairs, perm-sort_pairs, All-sort_pairs,
}
use azure_iot_dev.Iothub.Message.Encode.{encode_lem, duplicates-sort_pairs}
use azure_iot_dev.Iothub.Message.Fields.{
  read_back, blank, extra_only, read_fields, IsEncoded, fields-Bytes,
}
use azure_iot_dev.Iothub.Message.Custom.{IsFree, read_custom, named-other}

extract_any :
    (device_id : Text) (pairs : Pairs) (m : Message)
    → Lacks b'/' device_id
    → All PairBytes pairs
    → extract_message_properties_from_topic (c2d_topic device_id (urlencode pairs)) m
      ≡ ok (set_pairs pairs m)
extract_any device_id (p ∷ rest) m hd h = extract_c2d device_id p rest m hd h
extract_any device_id [] m hd h =
    unfold extract_message_properties_from_topic urlencode in
    ap (λ parts. extract_from (properties_part parts) m) (split-c2d device_id [] hd tt)

-- A message whose fields are bytes and whose custom properties have different keys, none of them one
-- that the functions use, survives: what `encode_message_properties_in_topic` writes is read by
-- `extract_message_properties_from_topic`, behind a device id without `/`, as a message with the
-- fields that were set and not empty, and with the custom properties in ascending order, behind the
-- name of the output and the interface id, which become custom properties.
pub message_round_trip :
    (device_id : Text) (m : Message) (custom : Pairs)
    → Lacks b'/' device_id
    → IsEncoded m
    → All PairBytes custom
    → All IsFree custom
    → has_duplicates custom ≡ false
    → (sorted : Pairs) × (properties : Text) × Perm sorted custom
      × (is_sorted sorted ≡ true)
      × (encode_message_properties_in_topic m custom [] ≡ ok properties)
      × (extract_message_properties_from_topic (c2d_topic device_id properties) blank
          ≡ ok (read_back m sorted))
message_round_trip device_id m custom hd fields bytes free single =
    let sorted = sort_pairs custom in
    let pairs = system_properties m ++ sorted in
    let two =
      named-other m.output_name m.iothub_interface_id sorted (All-sort_pairs IsFree custom free) in
    (
      sorted,
      urlencode pairs,
      perm-sort_pairs custom,
      sorted-sort_pairs custom,
      encode_lem m custom [] ∙ rw single refl,
      extract_any device_id pairs blank hd
            (fields-Bytes m sorted fields (All-sort_pairs PairBytes custom bytes))
          ∙ ap ok (
              read_fields m sorted
              ∙ read_custom sorted (extra_only m) (All-sort_pairs IsFree custom free) two
                  (duplicates-sort_pairs custom ∙ single)),
    )
