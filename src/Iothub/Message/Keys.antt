-- ===== src/Iothub/Message/Keys.antt =====
-- Dictionaries with texts as keys, in the order of insertion.
use azure_iot_dev.Text.Equal.{text_eq_comm}
use azure_iot_dev.Prelude.{
  suc, ◌≤◌, ◌≡◌, refl, true, false, ◌||◌, [], ◌∷◌, ◌++◌, arith, All, length,
}
use azure_iot_dev.Text.{Text, text_eq}
use azure_iot_dev.Iothub.Topic.{Properties, set_property}
use azure_iot_dev.Iothub.Message.{Pairs, has_key, has_duplicates}

has_key-snoc :
    (key k v : Text) (d : Properties)
    → has_key key (d ++ (k, v) ∷ []) ≡ (has_key key d || text_eq k key)
unfolding has_key
has_key-snoc key k v [] = ground arith
has_key-snoc key k v ((l, w) ∷ d) = ground (arith, has_key-snoc key k v d)

abbrev pub AllNew : Pairs → Pairs → Type 0
AllNew d = All (λ q. has_key q.0 d ≡ false)

-- The keys that follow stay new when one is added that is none of them.
pub AllNew-snoc :
    (k v : Text) (d rest : Pairs)
    → has_key k rest ≡ false
    → AllNew d rest
    → AllNew (d ++ (k, v) ∷ []) rest
unfolding has_key
AllNew-snoc k v d [] other new = tt
AllNew-snoc k v d ((l, w) ∷ rest) other new = (
  ground (arith, has_key-snoc l k v d, new.0, text_eq_comm k l),
  AllNew-snoc k v d rest (ground arith) new.1,
)

pub nil-AllNew : (pairs : Pairs) → AllNew [] pairs
unfolding has_key
nil-AllNew [] = tt
nil-AllNew (p ∷ pairs) = (refl, nil-AllNew pairs)

pub set_property-new :
    (key value : Text) (d : Properties)
    → has_key key d ≡ false
    → set_property key value d ≡ d ++ (key, value) ∷ []
unfolding has_key set_property
set_property-new key value [] h = refl
set_property-new key value ((k, v) ∷ d) h = ground (arith, set_property-new key value d)

pub length-set_property :
    (key value : Text) (d : Properties)
    → has_key key d ≡ true
    → length (set_property key value d) ≡ length d
unfolding has_key set_property
length-set_property key value [] h = absurd (ground arith)
length-set_property key value ((k, v) ∷ d) h = ground (arith, length-set_property key value d)

pub length-set_property_le :
    (key value : Text) (d : Properties) → length (set_property key value d) ≤ suc (length d)
unfolding set_property
length-set_property_le key value [] = omega arith
length-set_property_le key value ((k, v) ∷ d) = ground (arith, length-set_property_le key value d)

pub duplicates-snoc :
    (key value : Text) (d : Properties)
    → has_key key d ≡ false
    → has_duplicates d ≡ false
    → has_duplicates (d ++ (key, value) ∷ []) ≡ false
unfolding has_key has_duplicates
duplicates-snoc key value [] new single = refl
duplicates-snoc key value ((k, v) ∷ d) new single =
    ground (arith, has_key-snoc k key value d, text_eq_comm key k, duplicates-snoc key value d)
