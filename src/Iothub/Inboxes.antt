-- ===== src/Iothub/Inboxes.antt =====
-- `InboxManager` of azure-iot-device/azure/iot/device/iothub/inbox_manager.py over the inboxes of
-- azure-iot-device/azure/iot/device/iothub/sync_inbox.py: where the data that comes in is put, and
-- how the client takes it. An item is a number. An inbox is the list of its items, the oldest first;
-- to take from an empty one yields nothing, where Python waits or raises `InboxEmpty`.
pub mod Dictionary
pub mod Queues
pub mod Order
pub mod Samples
use azure_iot_dev.Prelude.{
  ℕ, Bool, true, false, Option, none, some, List, [], ◌∷◌, ◌++◌, is_some, if◌then◌else◌,
}
use azure_iot_dev.Text.{Text, text_eq}

abbrev pub Inbox : Type 0
Inbox = List ℕ

abbrev pub Inboxes : Type 0
Inboxes = List (Text × Inbox)

-- `inboxes[name]`; `none` is the `KeyError`.
unfoldable pub lookup : Text → Inboxes → Option Inbox
lookup name [] = none
lookup name ((n, inbox) ∷ rest) = if text_eq n name then some inbox else lookup name rest

-- The inbox that a name has is changed; nothing happens for another name.
unfoldable pub update : Text → Inbox → Inboxes → Inboxes
update name inbox [] = []
update name inbox ((n, old) ∷ rest) =
    if text_eq n name then (n, inbox) ∷ rest else (n, old) ∷ update name inbox rest

-- A new name goes behind the others.
abbrev pub create_if_missing : Text → Inboxes → Inboxes
create_if_missing name inboxes =
    if is_some (lookup name inboxes) then inboxes else inboxes ++ (name, []) ∷ []

pub record Manager : Type 0 where
  pub unified_message_inbox : Inbox
  pub generic_method_request_inbox : Inbox
  pub twin_patch_inbox : Inbox
  pub client_event_inbox : Inbox
  pub c2d_message_inbox : Inbox
  pub input_message_inboxes : Inboxes
  pub named_method_request_inboxes : Inboxes
  pub use_unified_msg_mode : Bool

unfoldable pub initial : Manager
initial = record {
  unified_message_inbox = [];
  generic_method_request_inbox = [];
  twin_patch_inbox = [];
  client_event_inbox = [];
  c2d_message_inbox = [];
  input_message_inboxes = [];
  named_method_request_inboxes = [];
  use_unified_msg_mode = false;
}

-- `get_input_message_inbox`, for the inbox that it makes.
unfoldable pub get_input_message_inbox : Text → Manager → Manager
unfolding lookup
get_input_message_inbox input_name m = record m {
  input_message_inboxes = create_if_missing input_name m.input_message_inboxes;
}

-- `get_method_request_inbox`; an empty name is as good as none.
unfoldable pub get_method_request_inbox : Text → Manager → Manager
unfolding lookup
get_method_request_inbox [] m = m
get_method_request_inbox (c ∷ name) m = record m {
  named_method_request_inboxes = create_if_missing (c ∷ name) m.named_method_request_inboxes;
}

abbrev pub put_input : Option Inbox → Text → ℕ → Manager → Manager × Bool
put_input none input_name item m = (m, false)
put_input (some inbox) input_name item m = (
  record m {
    input_message_inboxes = update input_name (inbox ++ item ∷ []) m.input_message_inboxes;
  },
  true,
)

abbrev pub put_unified : ℕ → Manager → Manager × Bool
put_unified item m =
    (record m { unified_message_inbox = m.unified_message_inbox ++ item ∷ [] }, true)

-- The routing functions return whether the item was routed.
unfoldable pub route_input_message : Text → ℕ → Manager → Manager × Bool
unfolding lookup update
route_input_message input_name item m =
    if m.use_unified_msg_mode
    then put_unified item m
    else put_input (lookup input_name m.input_message_inboxes) input_name item m

unfoldable pub route_c2d_message : ℕ → Manager → Manager × Bool
route_c2d_message item m =
    if m.use_unified_msg_mode
    then put_unified item m
    else (record m { c2d_message_inbox = m.c2d_message_inbox ++ item ∷ [] }, true)

abbrev pub put_method : Option Inbox → Text → ℕ → Manager → Manager
put_method none name item m = record m {
  generic_method_request_inbox = m.generic_method_request_inbox ++ item ∷ [];
}
put_method (some inbox) name item m = record m {
  named_method_request_inboxes = update name (inbox ++ item ∷ []) m.named_method_request_inboxes;
}

unfoldable pub route_method_request : Text → ℕ → Manager → Manager × Bool
unfolding lookup update
route_method_request name item m =
    (put_method (lookup name m.named_method_request_inboxes) name item m, true)

unfoldable pub route_twin_patch : ℕ → Manager → Manager × Bool
route_twin_patch item m = (record m { twin_patch_inbox = m.twin_patch_inbox ++ item ∷ [] }, true)

abbrev pub clear_all : Inboxes → Inboxes
clear_all [] = []
clear_all ((n, inbox) ∷ rest) = (n, []) ∷ clear_all rest

unfoldable pub clear_all_method_requests : Manager → Manager
clear_all_method_requests m = record m {
  generic_method_request_inbox = [];
  named_method_request_inboxes = clear_all m.named_method_request_inboxes;
}

-- The inboxes of a manager.
pub data Destination : Type 0 where
  unified generic_method twin_patch client_event c2d : Destination
  input named_method : Text → Destination

-- An inbox that was never made holds nothing.
abbrev pub or_empty : Option Inbox → Inbox
or_empty none = []
or_empty (some inbox) = inbox

unfoldable pub contents : Destination → Manager → Inbox
unfolding lookup
contents unified m = m.unified_message_inbox
contents generic_method m = m.generic_method_request_inbox
contents twin_patch m = m.twin_patch_inbox
contents client_event m = m.client_event_inbox
contents c2d m = m.c2d_message_inbox
contents (input name) m = or_empty (lookup name m.input_message_inboxes)
contents (named_method name) m = or_empty (lookup name m.named_method_request_inboxes)

abbrev pub tail : Inbox → Inbox
tail [] = []
tail (item ∷ rest) = rest

-- `get` of an inbox: its oldest item leaves it.
unfoldable pub take : Destination → Manager → Manager
unfolding contents lookup update
take unified m = record m { unified_message_inbox = tail m.unified_message_inbox }
take generic_method m = record m {
  generic_method_request_inbox = tail m.generic_method_request_inbox;
}
take twin_patch m = record m { twin_patch_inbox = tail m.twin_patch_inbox }
take client_event m = record m { client_event_inbox = tail m.client_event_inbox }
take c2d m = record m { c2d_message_inbox = tail m.c2d_message_inbox }
take (input name) m = record m {
  input_message_inboxes =
      update name (tail (or_empty (lookup name m.input_message_inboxes))) m.input_message_inboxes;
}
take (named_method name) m = record m {
  named_method_request_inboxes =
      update name (tail (or_empty (lookup name m.named_method_request_inboxes)))
        m.named_method_request_inboxes;
}

pub data Request : Type 0 where
  use_unified : Request
  make_input_inbox make_method_inbox : Text → Request
  input_message method_request : Text → ℕ → Request
  c2d_message patch event : ℕ → Request
  get_from : Destination → Request
  clear_methods : Request

unfoldable pub step : Request → Manager → Manager
unfolding get_input_message_inbox get_method_request_inbox route_input_message route_c2d_message
    route_method_request route_twin_patch take clear_all_method_requests
step use_unified m = record m { use_unified_msg_mode = true }
step (make_input_inbox name) m = get_input_message_inbox name m
step (make_method_inbox name) m = get_method_request_inbox name m
step (input_message name item) m = (route_input_message name item m).0
step (method_request name item) m = (route_method_request name item m).0
step (c2d_message item) m = (route_c2d_message item m).0
step (patch item) m = (route_twin_patch item m).0
step (event item) m = record m { client_event_inbox = m.client_event_inbox ++ item ∷ [] }
step (get_from d) m = take d m
step clear_methods m = clear_all_method_requests m

unfoldable pub run : List Request → Manager → Manager
unfolding step
run [] m = m
run (r ∷ rest) m = run rest (step r m)
