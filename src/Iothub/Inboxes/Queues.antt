-- ===== src/Iothub/Inboxes/Queues.antt =====
-- Each inbox is a queue: what each request puts in and takes out.
use mathlib.Core.List.{append-nil}
use azure_iot_dev.Prelude.{
  ℕ, ◌≡◌, refl, sym, ap, ◌∙◌, Bool, true, false, Option, none, some, List, [], ◌∷◌, ◌++◌, arith,
  is_some, if◌then◌else◌,
}
use azure_iot_dev.Text.{Text, text_eq}
use azure_iot_dev.Iothub.Inboxes.{
  Inbox, lookup, Manager, get_input_message_inbox, get_method_request_inbox, put_input, put_unified,
  put_method, clear_all_method_requests, Destination, unified, generic_method, twin_patch,
  client_event, c2d, input, named_method, or_empty, contents, take, Request, input_message,
  method_request, c2d_message, patch, event, get_from, clear_methods, step,
}
use azure_iot_dev.Iothub.Inboxes.Dictionary.{
  create-empty, clear-empty, lookup-put, head, head-tail, lookup-take,
}

abbrev pub is_same : Destination → Destination → Bool
is_same unified unified = true
is_same generic_method generic_method = true
is_same twin_patch twin_patch = true
is_same client_event client_event = true
is_same c2d c2d = true
is_same (input name) (input other) = text_eq name other
is_same (named_method name) (named_method other) = text_eq name other
is_same _ _ = false

abbrev pub is_method : Destination → Bool
is_method generic_method = true
is_method (named_method name) = true
is_method _ = false

-- Where an item goes: a message of a device or an input into the one inbox for all in unified
-- mode; otherwise a message of an input only into the inbox that was made for it, and a method
-- request into the inbox that was made for its name, if there is one.
abbrev pub destination : Request → Manager → Option (Destination × ℕ)
destination (input_message name item) m =
    if m.use_unified_msg_mode
    then some (unified, item)
    else if is_some (lookup name m.input_message_inboxes)
    then some (input name, item)
    else none
destination (c2d_message item) m =
    if m.use_unified_msg_mode then some (unified, item) else some (c2d, item)
destination (method_request name item) m =
    if is_some (lookup name m.named_method_request_inboxes)
    then some (named_method name, item)
    else some (generic_method, item)
destination (patch item) m = some (twin_patch, item)
destination (event item) m = some (client_event, item)
destination _ m = none

abbrev pub put_into : Destination → Option (Destination × ℕ) → Inbox
put_into d none = []
put_into d (some (to, item)) = if is_same to d then item ∷ [] else []

-- What leaves an inbox: its oldest item when it is taken, and all when method requests are cleared.
abbrev pub leaves : Destination → Request → Manager → Inbox
leaves d (get_from from) m = if is_same from d then head (contents d m) else []
leaves d clear_methods m = if is_method d then contents d m else []
leaves d _ m = []

-- All that was put into an inbox in a run, and all that has left it.
abbrev pub all_put : Destination → List Request → Manager → Inbox
all_put d [] m = []
all_put d (r ∷ rest) m = put_into d (destination r m) ++ all_put d rest (step r m)

abbrev pub all_left : Destination → List Request → Manager → Inbox
all_left d [] m = []
all_left d (r ∷ rest) m = leaves d r m ++ all_left d rest (step r m)

-- One request keeps the balance of an inbox.
abbrev pub IsBalanced : Destination → Request → Manager → Type 0
IsBalanced d r m =
    leaves d r m ++ contents d (step r m) ≡ contents d m ++ put_into d (destination r m)

pub unified-IsBalanced :
    (d : Destination) (item : ℕ) (m : Manager)
    → contents d (put_unified item m).0 ≡ contents d m ++ put_into d (some (unified, item))
unfolding contents
unified-IsBalanced d item m = ground (arith, append-nil (contents d m))

pub input-IsBalanced :
    (d : Destination) (name : Text) (item : ℕ) (m : Manager) (found : Option Inbox)
    → lookup name m.input_message_inboxes ≡ found
    → contents d (put_input found name item m).0
      ≡ contents d m ++ put_into d (if is_some found then some (input name, item) else none)
unfolding contents
input-IsBalanced d name item m none e = sym (append-nil (contents d m))
input-IsBalanced (input other) name item m (some inbox) e =
    lookup-put name other item inbox m.input_message_inboxes e
input-IsBalanced d name item m (some inbox) e = sym (append-nil (contents d m))

pub method-IsBalanced :
    (d : Destination) (name : Text) (item : ℕ) (m : Manager) (found : Option Inbox)
    → lookup name m.named_method_request_inboxes ≡ found
    → contents d (put_method found name item m)
      ≡ contents d m
        ++ put_into d
            (if is_some found then some (named_method name, item) else some (generic_method, item))
unfolding contents
method-IsBalanced generic_method name item m none e = refl
method-IsBalanced d name item m none e = ground (arith, append-nil (contents d m))
method-IsBalanced (named_method other) name item m (some inbox) e =
    lookup-put name other item inbox m.named_method_request_inboxes e
method-IsBalanced d name item m (some inbox) e = sym (append-nil (contents d m))

pub take-IsBalanced :
    (d from : Destination) (m : Manager)
    → (if is_same from d then head (contents d m) else []) ++ contents d (take from m)
      ≡ contents d m
unfolding contents take
take-IsBalanced (input other) (input name) m = lookup-take name other m.input_message_inboxes
take-IsBalanced (named_method other) (named_method name) m =
    lookup-take name other m.named_method_request_inboxes
take-IsBalanced d from m = ground (arith, head-tail (contents d m))

pub clear-IsBalanced :
    (d : Destination) (m : Manager)
    → (if is_method d then contents d m else []) ++ contents d (clear_all_method_requests m)
      ≡ contents d m
unfolding contents clear_all_method_requests
clear-IsBalanced (named_method name) m =
    ap (λ os. or_empty (lookup name m.named_method_request_inboxes) ++ os)
      (clear-empty name m.named_method_request_inboxes)
    ∙ append-nil (or_empty (lookup name m.named_method_request_inboxes))
clear-IsBalanced generic_method m = append-nil m.generic_method_request_inbox
clear-IsBalanced d m = refl

pub make_input-IsBalanced :
    (d : Destination) (name : Text) (m : Manager)
    → contents d (get_input_message_inbox name m) ≡ contents d m
unfolding contents get_input_message_inbox
make_input-IsBalanced (input other) name m = create-empty name other m.input_message_inboxes
make_input-IsBalanced d name m = refl

pub make_method-IsBalanced :
    (d : Destination) (name : Text) (m : Manager)
    → contents d (get_method_request_inbox name m) ≡ contents d m
unfolding contents get_method_request_inbox
make_method-IsBalanced d [] m = refl
make_method-IsBalanced (named_method other) (c ∷ name) m =
    create-empty (c ∷ name) other m.named_method_request_inboxes
make_method-IsBalanced d (c ∷ name) m = refl
