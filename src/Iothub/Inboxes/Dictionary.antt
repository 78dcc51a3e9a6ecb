-- ===== src/Iothub/Inboxes/Dictionary.antt =====
-- The dictionaries of inboxes.
use mathlib.Core.List.{append-nil}
use azure_iot_dev.Text.Equal.{text_eq_sound, text_eq_cong}
use azure_iot_dev.Prelude.{
  ℕ, ◌≡◌, refl, sym, ap, ◌∙◌, subst, true, false, Option, none, some, [], ◌∷◌, ◌++◌, arith, is_some,
  if◌then◌else◌, Bool-cases, inl, inr,
}
use azure_iot_dev.Text.{Text, text_eq}
use azure_iot_dev.Iothub.Inboxes.{
  Inbox, Inboxes, lookup, update, create_if_missing, clear_all, or_empty, tail,
}

pub lookup-update :
    (name : Text) (inbox : Inbox) (d : Inboxes)
    → is_some (lookup name d) ≡ true
    → lookup name (update name inbox d) ≡ some inbox
unfolding lookup update
lookup-update name inbox [] h = absurd (ground arith)
lookup-update name inbox ((n, old) ∷ d) h = ground (arith, lookup-update name inbox d)

pub lookup-update_other :
    (name other : Text) (inbox : Inbox) (d : Inboxes)
    → text_eq name other ≡ false
    → lookup other (update name inbox d) ≡ lookup other d
unfolding lookup update
lookup-update_other name other inbox [] h = refl
lookup-update_other name other inbox ((n, old) ∷ d) h =
    ground (arith, lookup-update_other name other inbox d h, text_eq_cong n name other)

-- A name without an inbox is not given one.
pub update-missing :
    (name other : Text) (inbox : Inbox) (d : Inboxes)
    → lookup name d ≡ none
    → lookup other (update name inbox d) ≡ lookup other d
unfolding lookup update
update-missing name other inbox [] h = refl
update-missing name other inbox ((n, old) ∷ d) h = ground (arith, update-missing name other inbox d)

lookup-append :
    (name other : Text) (d : Inboxes)
    → or_empty (lookup other (d ++ (name, []) ∷ [])) ≡ or_empty (lookup other d)
unfolding lookup
lookup-append name other [] = ground arith
lookup-append name other ((n, old) ∷ d) = ground (arith, lookup-append name other d)

pub create-empty :
    (name other : Text) (d : Inboxes)
    → or_empty (lookup other (create_if_missing name d)) ≡ or_empty (lookup other d)
create-empty name other d = elim (Bool-cases (is_some (lookup name d))) [
  | inl there ↦ rw there refl
  | inr missing ↦ rw missing (lookup-append name other d)
]

pub clear-empty : (name : Text) (d : Inboxes) → or_empty (lookup name (clear_all d)) ≡ []
unfolding lookup
clear-empty name [] = refl
clear-empty name ((n, old) ∷ d) = ground (arith, clear-empty name d)

-- An item that is put into an inbox comes behind the others there, and is in no other inbox.
pub lookup-put :
    (name other : Text) (item : ℕ) (inbox : Inbox) (d : Inboxes)
    → lookup name d ≡ some inbox
    → or_empty (lookup other (update name (inbox ++ item ∷ []) d))
      ≡ or_empty (lookup other d) ++ (if text_eq name other then item ∷ [] else [])
lookup-put name other item inbox d e = elim (Bool-cases (text_eq name other)) [
  | inl same ↦ rw same (
      subst
        (λ t.
          or_empty (lookup t (update name (inbox ++ item ∷ []) d))
          ≡ or_empty (lookup t d) ++ item ∷ [])
        (text_eq_sound name other same)
        (ap or_empty (lookup-update name (inbox ++ item ∷ []) d (ap is_some e)) ∙ rw e refl))
  | inr differs ↦ rw differs (
      ap or_empty (lookup-update_other name other (inbox ++ item ∷ []) d differs)
      ∙ sym (append-nil (or_empty (lookup other d))))
]

-- The oldest item, and what is behind it.
abbrev pub head : Inbox → Inbox
head [] = []
head (item ∷ rest) = item ∷ []

pub head-tail : (inbox : Inbox) → head inbox ++ tail inbox ≡ inbox
head-tail [] = refl
head-tail (item ∷ rest) = refl

-- An item that is taken from an inbox was its oldest, and is taken from no other inbox.
pub lookup-take :
    (name other : Text) (d : Inboxes)
    → (if text_eq name other then head (or_empty (lookup other d)) else [])
        ++ or_empty (lookup other (update name (tail (or_empty (lookup name d))) d))
      ≡ or_empty (lookup other d)
lookup-take name other d = elim (Bool-cases (text_eq name other)) [
  | inl same ↦ rw same (
      subst
        (λ t.
          head (or_empty (lookup t d))
            ++ or_empty (lookup t (update name (tail (or_empty (lookup name d))) d))
          ≡ or_empty (lookup t d))
        (text_eq_sound name other same) (taken (lookup name d) refl))
  | inr differs ↦
      rw differs
        (ap or_empty (lookup-update_other name other (tail (or_empty (lookup name d))) d differs))
]
  where
    taken :
        (found : Option Inbox)
        → lookup name d ≡ found
        → head (or_empty (lookup name d))
            ++ or_empty (lookup name (update name (tail (or_empty (lookup name d))) d))
          ≡ or_empty (lookup name d)
    taken none e =
        ap (λ o. head (or_empty (lookup name d)) ++ or_empty o)
          (update-missing name name (tail (or_empty (lookup name d))) d e ∙ e)
        ∙ rw e refl
    taken (some inbox) e =
        ap (λ o. head (or_empty (lookup name d)) ++ or_empty o)
          (lookup-update name (tail (or_empty (lookup name d))) d (ap is_some e))
        ∙ head-tail (or_empty (lookup name d))
