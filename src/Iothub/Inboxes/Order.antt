-- ===== src/Iothub/Inboxes/Order.antt =====
-- Each inbox is a queue: what was put into it comes out in the same order.
use mathlib.Core.List.{append_assoc, append-nil}
use azure_iot_dev.Prelude.{
  ℕ, ◌≡◌, refl, sym, ap, ◌∙◌, Bool, true, false, Option, none, some, List, [], ◌∷◌, ◌++◌, arith,
  is_some, if◌then◌else◌,
}
use azure_iot_dev.Text.{Text}
use azure_iot_dev.Iothub.Inboxes.{
  Inbox, lookup, Manager, initial, get_input_message_inbox, get_method_request_inbox, put_input,
  put_unified, route_input_message, route_c2d_message, route_method_request, route_twin_patch,
  Destination, unified, c2d, input, contents, Request, use_unified, make_input_inbox,
  make_method_inbox, input_message, method_request, c2d_message, patch, event, get_from,
  clear_methods, step, run,
}
use azure_iot_dev.Iothub.Inboxes.Queues.{
  destination, put_into, leaves, all_put, all_left, IsBalanced, unified-IsBalanced,
  input-IsBalanced, method-IsBalanced, take-IsBalanced, clear-IsBalanced, make_input-IsBalanced,
  make_method-IsBalanced,
}

-- A request that puts nothing and takes nothing.
idle :
    (d : Destination) (m after : Manager)
    → contents d after ≡ contents d m
    → contents d after ≡ contents d m ++ []
idle d m after e = e ∙ sym (append-nil (contents d m))

-- Both branches of a routing function, with where the item goes in each.
either :
    (d : Destination) (before : Inbox) (b : Bool) (x y : Manager × Bool)
    (p q : Option (Destination × ℕ))
    → contents d x.0 ≡ before ++ put_into d p
    → contents d y.0 ≡ before ++ put_into d q
    → contents d (if b then x else y).0 ≡ before ++ put_into d (if b then p else q)
either d before true x y p q hx hy = hx
either d before false x y p q hx hy = hy

route_input-IsBalanced :
    (d : Destination) (name : Text) (item : ℕ) (m : Manager)
    → IsBalanced d (input_message name item) m
unfolding step route_input_message
route_input-IsBalanced d name item m =
    let found = lookup name m.input_message_inboxes in
    either d (contents d m) m.use_unified_msg_mode (put_unified item m)
      (put_input found name item m) (some (unified, item))
      (if is_some found then some (input name, item) else none) (unified-IsBalanced d item m)
      (input-IsBalanced d name item m found refl)

c2d_lem :
    (d : Destination) (item : ℕ) (m : Manager)
    → contents d (record m { c2d_message_inbox = m.c2d_message_inbox ++ item ∷ [] })
      ≡ contents d m ++ put_into d (some (c2d, item))
unfolding contents
c2d_lem d item m = ground (arith, append-nil (contents d m))

route_c2d-IsBalanced :
    (d : Destination) (item : ℕ) (m : Manager) → IsBalanced d (c2d_message item) m
unfolding step route_c2d_message
route_c2d-IsBalanced d item m =
    either d (contents d m) m.use_unified_msg_mode (put_unified item m)
      (record m { c2d_message_inbox = m.c2d_message_inbox ++ item ∷ [] }, true)
      (some (unified, item)) (some (c2d, item)) (unified-IsBalanced d item m) (c2d_lem d item m)

patch-IsBalanced : (d : Destination) (item : ℕ) (m : Manager) → IsBalanced d (patch item) m
unfolding step route_twin_patch contents
patch-IsBalanced d item m = ground (arith, append-nil (contents d m))

event-IsBalanced : (d : Destination) (item : ℕ) (m : Manager) → IsBalanced d (event item) m
unfolding step contents
event-IsBalanced d item m = ground (arith, append-nil (contents d m))

mode_lem :
    (d : Destination) (m : Manager)
    → contents d (record m { use_unified_msg_mode = true }) ≡ contents d m
unfolding contents
mode_lem d m = ground arith

nothing_in : (d : Destination) → contents d initial ≡ []
unfolding initial contents lookup
nothing_in d = ground arith

step-IsBalanced : (d : Destination) (r : Request) (m : Manager) → IsBalanced d r m
unfolding step route_method_request
step-IsBalanced d use_unified m = idle d m (record m { use_unified_msg_mode = true }) (mode_lem d m)
step-IsBalanced d (make_input_inbox name) m =
    idle d m (get_input_message_inbox name m) (make_input-IsBalanced d name m)
step-IsBalanced d (make_method_inbox name) m =
    idle d m (get_method_request_inbox name m) (make_method-IsBalanced d name m)
step-IsBalanced d (input_message name item) m = route_input-IsBalanced d name item m
step-IsBalanced d (method_request name item) m =
    method-IsBalanced d name item m (lookup name m.named_method_request_inboxes) refl
step-IsBalanced d (c2d_message item) m = route_c2d-IsBalanced d item m
step-IsBalanced d (patch item) m = patch-IsBalanced d item m
step-IsBalanced d (event item) m = event-IsBalanced d item m
step-IsBalanced d (get_from from) m = take-IsBalanced d from m ∙ sym (append-nil (contents d m))
step-IsBalanced d clear_methods m = clear-IsBalanced d m ∙ sym (append-nil (contents d m))

run-IsBalanced :
    (d : Destination) (rs : List Request) (m : Manager)
    → all_left d rs m ++ contents d (run rs m) ≡ contents d m ++ all_put d rs m
unfolding run
run-IsBalanced d [] m = sym (append-nil (contents d m))
run-IsBalanced d (r ∷ rs) m =
    append_assoc (leaves d r m) (all_left d rs (step r m)) (contents d (run rs (step r m)))
    ∙ ap (λ os. leaves d r m ++ os) (run-IsBalanced d rs (step r m))
    ∙ sym (append_assoc (leaves d r m) (contents d (step r m)) (all_put d rs (step r m)))
    ∙ ap (λ os. os ++ all_put d rs (step r m)) (step-IsBalanced d r m)
    ∙ append_assoc (contents d m) (put_into d (destination r m)) (all_put d rs (step r m))

-- Whatever is routed, made, taken and cleared, in any order: what has left an inbox and what is
-- still in it is together, in this order, what was put into it, item by item. So no item is lost,
-- doubled or put into two inboxes, and the items of an inbox come out in the order in which they
-- came.
pub inboxes_are_queues :
    (d : Destination) (rs : List Request)
    → all_left d rs initial ++ contents d (run rs initial) ≡ all_put d rs initial
unfolding initial contents lookup
inboxes_are_queues d rs =
    run-IsBalanced d rs initial ∙ ap (λ os. os ++ all_put d rs initial) (nothing_in d)
