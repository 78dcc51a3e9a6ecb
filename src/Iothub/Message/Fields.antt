-- ===== src/Iothub/Message/Fields.antt =====
-- How the fields of a message, written in a topic, are read.
use mathlib.Core.List.{append_assoc}
use azure_iot_dev.Prelude.{
  ◌≡◌, refl, ap, sym, ◌∙◌, subst, Option, none, some, List, [], ◌∷◌, ◌++◌, map, arith, All,
}
use azure_iot_dev.Text.{Text, codes}
use azure_iot_dev.Text.Quote.{Bytes}
use azure_iot_dev.Iothub.Message.{
  Message, Pairs, set_custom, set_on_message, property_of, system_properties,
}
use azure_iot_dev.Iothub.Message.Extract.{set_pairs, PairBytes}

abbrev pub Custom : Type 0
Custom = List (Text × Option Text)

-- What is read of a field: an empty text is not written.
abbrev pub written : Option Text → Option Text → Option Text
written none old = old
written (some []) old = old
written (some (c ∷ s)) old = some (c ∷ s)

abbrev written_custom : Text → Option Text → Custom → Custom
written_custom key none old = old
written_custom key (some []) old = old
written_custom key (some (c ∷ s)) old = set_custom key (some (c ∷ s)) old

module _ (rest : Pairs) (m : Message) where
  read_on :
      (f : Option Text)
      → set_pairs (property_of (codes "$.on") f ++ rest) m
        ≡ set_pairs rest
            (record m { custom_properties = written_custom (codes "$.on") f m.custom_properties })
  unfolding set_on_message
  read_on none = refl
  read_on (some []) = refl
  read_on (some (c ∷ s)) = refl

  read_ifid :
      (f : Option Text)
      → set_pairs (property_of (codes "$.ifid") f ++ rest) m
        ≡ set_pairs rest
            (record m { custom_properties = written_custom (codes "$.ifid") f m.custom_properties })
  unfolding set_on_message
  read_ifid none = refl
  read_ifid (some []) = refl
  read_ifid (some (c ∷ s)) = refl

  read_mid :
      (f : Option Text)
      → set_pairs (property_of (codes "$.mid") f ++ rest) m
        ≡ set_pairs rest (record m { message_id = written f m.message_id })
  unfolding set_on_message
  read_mid none = refl
  read_mid (some []) = refl
  read_mid (some (c ∷ s)) = refl

  read_cid :
      (f : Option Text)
      → set_pairs (property_of (codes "$.cid") f ++ rest) m
        ≡ set_pairs rest (record m { correlation_id = written f m.correlation_id })
  unfolding set_on_message
  read_cid none = refl
  read_cid (some []) = refl
  read_cid (some (c ∷ s)) = refl

  read_uid :
      (f : Option Text)
      → set_pairs (property_of (codes "$.uid") f ++ rest) m
        ≡ set_pairs rest (record m { user_id = written f m.user_id })
  unfolding set_on_message
  read_uid none = refl
  read_uid (some []) = refl
  read_uid (some (c ∷ s)) = refl

  read_ct :
      (f : Option Text)
      → set_pairs (property_of (codes "$.ct") f ++ rest) m
        ≡ set_pairs rest (record m { content_type = written f m.content_type })
  unfolding set_on_message
  read_ct none = refl
  read_ct (some []) = refl
  read_ct (some (c ∷ s)) = refl

  read_ce :
      (f : Option Text)
      → set_pairs (property_of (codes "$.ce") f ++ rest) m
        ≡ set_pairs rest (record m { content_encoding = written f m.content_encoding })
  unfolding set_on_message
  read_ce none = refl
  read_ce (some []) = refl
  read_ce (some (c ∷ s)) = refl

  read_exp :
      (f : Option Text)
      → set_pairs (property_of (codes "$.exp") f ++ rest) m
        ≡ set_pairs rest (record m { expiry_time_utc = written f m.expiry_time_utc })
  unfolding set_on_message
  read_exp none = refl
  read_exp (some []) = refl
  read_exp (some (c ∷ s)) = refl

abbrev pub known : Text × Text → Text × Option Text
known (key, value) = (key, some value)

abbrev pub named : Text → Option Text → Custom
named key none = []
named key (some []) = []
named key (some (c ∷ s)) = (key, some (c ∷ s)) ∷ []

-- The message that is read: `$.on` and `$.ifid`, which mean nothing to the reader, come first among
-- the custom properties.
abbrev pub read_back : Message → Pairs → Message
read_back m sorted = record {
  message_id = written m.message_id none;
  expiry_time_utc = written m.expiry_time_utc none;
  correlation_id = written m.correlation_id none;
  user_id = written m.user_id none;
  content_encoding = written m.content_encoding none;
  content_type = written m.content_type none;
  output_name = none;
  ack = none;
  iothub_interface_id = none;
  custom_properties =
      (named (codes "$.on") m.output_name ++ named (codes "$.ifid") m.iothub_interface_id)
      ++ map known sorted;
}

abbrev pub blank : Message
blank = record {
  message_id = none;
  expiry_time_utc = none;
  correlation_id = none;
  user_id = none;
  content_encoding = none;
  content_type = none;
  output_name = none;
  ack = none;
  iothub_interface_id = none;
  custom_properties = [];
}

written_two :
    (on ifid : Option Text)
    → written_custom (codes "$.ifid") ifid (written_custom (codes "$.on") on [])
      ≡ named (codes "$.on") on ++ named (codes "$.ifid") ifid
unfolding set_custom
written_two none none = refl
written_two none (some []) = refl
written_two none (some (c ∷ s)) = refl
written_two (some []) none = refl
written_two (some []) (some []) = refl
written_two (some []) (some (c ∷ s)) = refl
written_two (some (d ∷ t)) none = refl
written_two (some (d ∷ t)) (some []) = refl
written_two (some (d ∷ t)) (some (c ∷ s)) = refl

regroup :
    (a b c d e f g h rest : Pairs)
    → (a ++ b ++ c ++ d ++ e ++ f ++ g ++ h) ++ rest
      ≡ a ++ (b ++ (c ++ (d ++ (e ++ (f ++ (g ++ (h ++ rest)))))))
regroup a b c d e f g h rest = simp append_assoc

-- What is read before the custom properties.
abbrev pub extra_only : Message → Message
extra_only m = record (read_back m []) {
  custom_properties =
      named (codes "$.on") m.output_name ++ named (codes "$.ifid") m.iothub_interface_id;
}

-- The pairs of the fields, and any that follow.
pub read_fields :
    (m : Message) (rest : Pairs)
    → set_pairs (system_properties m ++ rest) blank ≡ set_pairs rest (extra_only m)
unfolding system_properties
read_fields m rest =
    let p8 = property_of (codes "$.exp") m.expiry_time_utc ++ rest in
    let p7 = property_of (codes "$.ifid") m.iothub_interface_id ++ p8 in
    let p6 = property_of (codes "$.ce") m.content_encoding ++ p7 in
    let p5 = property_of (codes "$.ct") m.content_type ++ p6 in
    let p4 = property_of (codes "$.uid") m.user_id ++ p5 in
    let p3 = property_of (codes "$.cid") m.correlation_id ++ p4 in
    let p2 = property_of (codes "$.mid") m.message_id ++ p3 in
    let m1 : Message = record blank {
      custom_properties = written_custom (codes "$.on") m.output_name blank.custom_properties;
    } in
    let m2 : Message = record m1 { message_id = written m.message_id none } in
    let m3 : Message = record m2 { correlation_id = written m.correlation_id none } in
    let m4 : Message = record m3 { user_id = written m.user_id none } in
    let m5 : Message = record m4 { content_type = written m.content_type none } in
    let m6 : Message = record m5 { content_encoding = written m.content_encoding none } in
    let m7 : Message = record m6 {
      custom_properties =
          written_custom (codes "$.ifid") m.iothub_interface_id m6.custom_properties;
    } in
    let m8 : Message = record m7 { expiry_time_utc = written m.expiry_time_utc none } in
    ap (λ l. set_pairs l blank)
      (regroup (property_of (codes "$.on") m.output_name) (property_of (codes "$.mid") m.message_id)
        (property_of (codes "$.cid") m.correlation_id) (property_of (codes "$.uid") m.user_id)
        (property_of (codes "$.ct") m.content_type) (property_of (codes "$.ce") m.content_encoding)
        (property_of (codes "$.ifid") m.iothub_interface_id)
        (property_of (codes "$.exp") m.expiry_time_utc) rest)
    ∙ read_on p2 blank m.output_name
    ∙ read_mid p3 m1 m.message_id
    ∙ read_cid p4 m2 m.correlation_id
    ∙ read_uid p5 m3 m.user_id
    ∙ read_ct p6 m4 m.content_type
    ∙ read_ce p7 m5 m.content_encoding
    ∙ read_ifid p8 m6 m.iothub_interface_id
    ∙ read_exp rest m7 m.expiry_time_utc
    ∙ ap (λ all. set_pairs rest (record (read_back m []) { custom_properties = all }))
        (written_two m.output_name m.iothub_interface_id)

abbrev pub FieldBytes : Option Text → Type 0
FieldBytes none = Unit
FieldBytes (some text) = Bytes text

-- The fields that are written, as the bytes of texts.
abbrev pub IsEncoded : Message → Type 0
IsEncoded m = All FieldBytes (
    m.output_name ∷ m.message_id ∷ m.correlation_id ∷ m.user_id ∷ m.content_type
    ∷ m.content_encoding ∷ m.iothub_interface_id ∷ m.expiry_time_utc ∷ [])

property-Bytes :
    (key : Text) (f : Option Text) (rest : Pairs)
    → Bytes key
    → FieldBytes f
    → All PairBytes rest
    → All PairBytes (property_of key f ++ rest)
property-Bytes key none rest hk h hs = hs
property-Bytes key (some []) rest hk h hs = hs
property-Bytes key (some (c ∷ s)) rest hk h hs = ((hk, h), hs)

pub fields-Bytes :
    (m : Message) (rest : Pairs)
    → IsEncoded m
    → All PairBytes rest
    → All PairBytes (system_properties m ++ rest)
unfolding system_properties
fields-Bytes m rest (h1, (h2, (h3, (h4, (h5, (h6, (h7, (h8, done)))))))) hs =
    let b8 = property-Bytes (codes "$.exp") m.expiry_time_utc rest (omega arith) h8 hs in
    let q8 = property_of (codes "$.exp") m.expiry_time_utc ++ rest in
    let b7 = property-Bytes (codes "$.ifid") m.iothub_interface_id q8 (omega arith) h7 b8 in
    let q7 = property_of (codes "$.ifid") m.iothub_interface_id ++ q8 in
    let b6 = property-Bytes (codes "$.ce") m.content_encoding q7 (omega arith) h6 b7 in
    let q6 = property_of (codes "$.ce") m.content_encoding ++ q7 in
    let b5 = property-Bytes (codes "$.ct") m.content_type q6 (omega arith) h5 b6 in
    let q5 = property_of (codes "$.ct") m.content_type ++ q6 in
    let b4 = property-Bytes (codes "$.uid") m.user_id q5 (omega arith) h4 b5 in
    let q4 = property_of (codes "$.uid") m.user_id ++ q5 in
    let b3 = property-Bytes (codes "$.cid") m.correlation_id q4 (omega arith) h3 b4 in
    let q3 = property_of (codes "$.cid") m.correlation_id ++ q4 in
    let b2 = property-Bytes (codes "$.mid") m.message_id q3 (omega arith) h2 b3 in
    let q2 = property_of (codes "$.mid") m.message_id ++ q3 in
    let b1 = property-Bytes (codes "$.on") m.output_name q2 (omega arith) h1 b2 in
    subst (All PairBytes)
      (sym (
        regroup (property_of (codes "$.on") m.output_name)
          (property_of (codes "$.mid") m.message_id) (property_of (codes "$.cid") m.correlation_id)
          (property_of (codes "$.uid") m.user_id) (property_of (codes "$.ct") m.content_type)
          (property_of (codes "$.ce") m.content_encoding)
          (property_of (codes "$.ifid") m.iothub_interface_id)
          (property_of (codes "$.exp") m.expiry_time_utc) rest))
      b1
