-- ===== src/Iothub/Message/Custom.antt =====
-- How the custom properties of a message, written in a topic, are read.
use mathlib.Core.List.{append_assoc, append-nil}
use azure_iot_dev.Prelude.{
  ◌≡◌, refl, ap, sym, ◌∙◌, Bool, true, false, Option, none, some, [], ◌∷◌, ◌++◌, map, arith, All,
  ◌||◌, not, ◌&&◌,
}
use azure_iot_dev.Text.{Text, codes, text_eq}
use azure_iot_dev.Text.Equal.{text_eq_comm}
use azure_iot_dev.Iothub.Message.{
  Message, Pairs, set_custom, set_on_message, has_key, has_duplicates,
}
use azure_iot_dev.Iothub.Message.Extract.{set_pairs}
use azure_iot_dev.Iothub.Message.Fields.{Custom, known, named}

abbrev key_in : Text → Custom → Bool
key_in key [] = false
key_in key ((k, v) ∷ rest) = text_eq k key || key_in key rest

key_in-snoc :
    (key k : Text) (v : Option Text) (d : Custom)
    → key_in key (d ++ (k, v) ∷ []) ≡ (key_in key d || text_eq k key)
key_in-snoc key k v [] = ground arith
key_in-snoc key k v ((l, w) ∷ d) = ground (arith, key_in-snoc key k v d)

set_custom-new :
    (key : Text) (value : Option Text) (d : Custom)
    → key_in key d ≡ false
    → set_custom key value d ≡ d ++ (key, value) ∷ []
unfolding set_custom
set_custom-new key value [] h = refl
set_custom-new key value ((k, v) ∷ d) h = ground (arith, set_custom-new key value d)

-- The keys that follow stay new when one is added that is none of them.
abbrev AllOther : Custom → Pairs → Type 0
AllOther d = All (λ q. key_in q.0 d ≡ false)

AllOther-snoc :
    (k : Text) (v : Option Text) (d : Custom) (rest : Pairs)
    → has_key k rest ≡ false
    → AllOther d rest
    → AllOther (d ++ (k, v) ∷ []) rest
unfolding has_key
AllOther-snoc k v d [] other new = tt
AllOther-snoc k v d ((l, w) ∷ rest) other new = (
  ground (arith, key_in-snoc l k v d, new.0, text_eq_comm k l),
  AllOther-snoc k v d rest (ground arith) new.1,
)

-- The keys that mean something to the reader, and the two that the writer uses besides.
abbrev pub is_free : Text → Bool
is_free key =
    not (text_eq key (codes "$.to"))
    && not (text_eq key (codes "$.mid"))
    && not (text_eq key (codes "$.cid"))
    && not (text_eq key (codes "$.uid"))
    && not (text_eq key (codes "$.ct"))
    && not (text_eq key (codes "$.ce"))
    && not (text_eq key (codes "$.exp"))
    && not (text_eq key (codes "iothub-ack"))
    && not (text_eq key (codes "$.on"))
    && not (text_eq key (codes "$.ifid"))

abbrev pub IsFree : Text × Text → Type 0
IsFree p = is_free p.0 ≡ true

set_free :
    (key : Text) (value : Option Text) (m : Message)
    → is_free key ≡ true
    → set_on_message key value m
      ≡ record m { custom_properties = set_custom key value m.custom_properties }
unfolding set_on_message
set_free key value m h = ground (arith, h)

pub read_custom :
    (pairs : Pairs) (m : Message)
    → All IsFree pairs
    → AllOther m.custom_properties pairs
    → has_duplicates pairs ≡ false
    → set_pairs pairs m ≡ record m { custom_properties = m.custom_properties ++ map known pairs }
unfolding has_duplicates
read_custom [] m free other single =
    ap (λ all. record m { custom_properties = all }) (sym (append-nil m.custom_properties))
read_custom ((k, v) ∷ rest) m free other single =
    ap (set_pairs rest) (
      set_free k (some v) m free.0
      ∙ ap (λ all. record m { custom_properties = all })
          (set_custom-new k (some v) m.custom_properties other.0))
    ∙ read_custom rest (record m { custom_properties = m.custom_properties ++ (k, some v) ∷ [] })
        free.1 (AllOther-snoc k (some v) m.custom_properties rest (ground arith) other.1)
        (ground arith)
    ∙ ap (λ all. record m { custom_properties = all })
        (append_assoc m.custom_properties ((k, some v) ∷ []) (map known rest))

last_two :
    (a b c d e f g h i j : Bool)
    → (a && b && c && d && e && f && g && h && i && j) ≡ true
    → (i ≡ true) × (j ≡ true)
last_two a b c d e f g h i j all_true = ground arith

-- A free key is neither of the two.
free_other :
    (key : Text)
    → is_free key ≡ true
    → (text_eq (codes "$.on") key ≡ false) × (text_eq (codes "$.ifid") key ≡ false)
free_other key free =
    let two =
      last_two (not (text_eq key (codes "$.to"))) (not (text_eq key (codes "$.mid")))
        (not (text_eq key (codes "$.cid"))) (not (text_eq key (codes "$.uid")))
        (not (text_eq key (codes "$.ct"))) (not (text_eq key (codes "$.ce")))
        (not (text_eq key (codes "$.exp"))) (not (text_eq key (codes "iothub-ack")))
        (not (text_eq key (codes "$.on"))) (not (text_eq key (codes "$.ifid"))) free in
    (
      text_eq_comm (codes "$.on") key ∙ turned (text_eq key (codes "$.on")) two.0,
      text_eq_comm (codes "$.ifid") key ∙ turned (text_eq key (codes "$.ifid")) two.1,
    )
  where
    turned : (b : Bool) → not b ≡ true → b ≡ false
    turned b h = ground arith

named-other_key :
    (on ifid : Option Text) (key : Text)
    → text_eq (codes "$.on") key ≡ false
    → text_eq (codes "$.ifid") key ≡ false
    → key_in key (named (codes "$.on") on ++ named (codes "$.ifid") ifid) ≡ false
named-other_key none none key h1 h2 = refl
named-other_key none (some []) key h1 h2 = refl
named-other_key none (some (c ∷ s)) key h1 h2 = rw h2 refl
named-other_key (some []) none key h1 h2 = refl
named-other_key (some []) (some []) key h1 h2 = refl
named-other_key (some []) (some (c ∷ s)) key h1 h2 = rw h2 refl
named-other_key (some (d ∷ t)) none key h1 h2 = rw h1 refl
named-other_key (some (d ∷ t)) (some []) key h1 h2 = rw h1 refl
named-other_key (some (d ∷ t)) (some (c ∷ s)) key h1 h2 = rw (h1, h2) refl

pub named-other :
    (on ifid : Option Text) (pairs : Pairs)
    → All IsFree pairs
    → AllOther (named (codes "$.on") on ++ named (codes "$.ifid") ifid) pairs
named-other on ifid [] free = tt
named-other on ifid ((key, v) ∷ rest) free =
    let other = free_other key free.0 in
    (named-other_key on ifid key other.0 other.1, named-other on ifid rest free.1)
