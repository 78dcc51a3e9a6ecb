-- ===== src/Iothub/Translation/Names.antt =====
-- A topic is not taken for one of another kind.
use azure_iot_dev.Prelude.{
  ℕ, suc, ◌+◌, ◌≤◌, ◌<◌, ◌≡◌, refl, ◌∙◌, true, false, Option, none, some, [], ◌∷◌, ◌++◌, ◌==◌,
  arith, if◌then◌else◌, Bool-cases, inl, inr,
}
use azure_iot_dev.Text.{Text, codes, starts_with, contains, quote}
use azure_iot_dev.Text.Split.{Lacks}
use azure_iot_dev.Text.Quote.{Bytes, slash-IsReserved, quote-Lacks}
use azure_iot_dev.Iothub.Topic.{is_c2d_topic, is_input_topic, is_method_topic}
use azure_iot_dev.Iothub.Topic.Parse.{with_request_id, method_topic, twin_response_topic}

-- How often a character is in a text.
abbrev pub count : ℕ → Text → ℕ
count d [] = 0
count d (c ∷ s) = if c == d then suc (count d s) else count d s

count-append : (d : ℕ) (s t : Text) → count d (s ++ t) ≡ count d s + count d t
count-append d [] t = omega arith
count-append d (c ∷ s) t = ground (arith, count-append d s t)

count-Lacks : (d : ℕ) (s : Text) → Lacks d s → count d s ≡ 0
count-Lacks d [] h = refl
count-Lacks d (c ∷ s) h = ground (arith, h.0, count-Lacks d s h.1)

starts-count : (d : ℕ) (prefix s : Text) → starts_with prefix s ≡ true → count d prefix ≤ count d s
unfolding starts_with
starts-count d [] s h = omega arith
starts-count d (p ∷ prefix) [] h = absurd (ground arith)
starts-count d (p ∷ prefix) (c ∷ s) h = ground (arith, starts-count d prefix s)

contains-count : (d : ℕ) (needle s : Text) → contains needle s ≡ true → count d needle ≤ count d s
unfolding contains
contains-count d needle [] h = starts-count d needle [] h
contains-count d needle (c ∷ s) h =
    ground (arith, starts-count d needle (c ∷ s), contains-count d needle s)

-- A text that has a character more often is not in another.
too_many : (d : ℕ) (needle s : Text) → count d s < count d needle → contains needle s ≡ false
too_many d needle s h = elim (Bool-cases (contains needle s)) [
  | inl is_in ↦ absurd (omega (arith, contains-count d needle s is_in))
  | inr is_out ↦ is_out
]

-- Behind the third slash there is one more.
count-tail :
    (part request_id : Text)
    → Bytes part
    → Bytes request_id
    → count b'/' (with_request_id request_id (quote part)) ≡ 1
count-tail part request_id hp hr =
    count-append b'/' (quote part) (b'/' ∷ b'?' ∷ (codes "$rid" ++ b'=' ∷ quote request_id))
    ∙ omega (
      arith,
      count-Lacks b'/' (quote part) (quote-Lacks b'/' part hp slash-IsReserved),
      count-Lacks b'/' (quote request_id) (quote-Lacks b'/' request_id hr slash-IsReserved),
    )

c2d_needle : Text → Text
c2d_needle device_id = codes "devices/" ++ device_id ++ codes "/messages/devicebound"

input_needle : Text → Text → Text
input_needle device_id module_id =
    codes "devices/" ++ device_id ++ codes "/modules/" ++ module_id ++ codes "/inputs/"

c2d_needle-count : (device_id : Text) → 1 < count b'/' (c2d_needle device_id)
unfolding c2d_needle
c2d_needle-count device_id = omega (
  arith,
  count-append b'/' (codes "devices/" ++ device_id) (codes "/messages/devicebound"),
  count-append b'/' (codes "devices/") device_id,
)

input_needle-count :
    (device_id module_id : Text) → 1 < count b'/' (input_needle device_id module_id)
unfolding input_needle
input_needle-count device_id module_id = omega (
  arith,
  count-append b'/' (codes "devices/" ++ device_id ++ codes "/modules/" ++ module_id)
      (codes "/inputs/"),
  count-append b'/' (codes "devices/" ++ device_id ++ codes "/modules/") module_id,
  count-append b'/' (codes "devices/" ++ device_id) (codes "/modules/"),
  count-append b'/' (codes "devices/") device_id,
)

module _ (part request_id : Text) (hp : Bytes part) (hr : Bytes request_id) where
  tail_free :
      (needle : Text)
      → 1 < count b'/' needle
      → contains needle (with_request_id request_id (quote part)) ≡ false
  tail_free needle h =
      too_many b'/' needle (with_request_id request_id (quote part))
        (omega (arith, count-tail part request_id hp hr))

  pub method_topic-not_c2d :
      (device_id : Text) → is_c2d_topic (method_topic part request_id) device_id ≡ false
  unfolding is_c2d_topic contains starts_with c2d_needle
  method_topic-not_c2d device_id = tail_free (c2d_needle device_id) (c2d_needle-count device_id)

  pub twin_topic-not_c2d :
      (device_id : Text) → is_c2d_topic (twin_response_topic part request_id) device_id ≡ false
  unfolding is_c2d_topic contains starts_with c2d_needle
  twin_topic-not_c2d device_id = tail_free (c2d_needle device_id) (c2d_needle-count device_id)

  pub method_topic-not_input :
      (device_id module_id : Option Text)
      → is_input_topic (method_topic part request_id) device_id module_id ≡ false
  unfolding is_input_topic contains starts_with input_needle
  method_topic-not_input (some (d ∷ device_id)) (some (m ∷ module_id)) =
      tail_free (input_needle (d ∷ device_id) (m ∷ module_id))
        (input_needle-count (d ∷ device_id) (m ∷ module_id))
  method_topic-not_input none module_id = refl
  method_topic-not_input (some []) module_id = refl
  method_topic-not_input (some (d ∷ device_id)) none = refl
  method_topic-not_input (some (d ∷ device_id)) (some []) = refl

  pub twin_topic-not_input :
      (device_id module_id : Option Text)
      → is_input_topic (twin_response_topic part request_id) device_id module_id ≡ false
  unfolding is_input_topic contains starts_with input_needle
  twin_topic-not_input (some (d ∷ device_id)) (some (m ∷ module_id)) =
      tail_free (input_needle (d ∷ device_id) (m ∷ module_id))
        (input_needle-count (d ∷ device_id) (m ∷ module_id))
  twin_topic-not_input none module_id = refl
  twin_topic-not_input (some []) module_id = refl
  twin_topic-not_input (some (d ∷ device_id)) none = refl
  twin_topic-not_input (some (d ∷ device_id)) (some []) = refl

  pub twin_topic-not_method : is_method_topic (twin_response_topic part request_id) ≡ false
  unfolding is_method_topic contains starts_with
  twin_topic-not_method = tail_free (codes "$iothub/methods/POST") (omega arith)
