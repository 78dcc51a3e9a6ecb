-- ===== src/Transport/OperationManager.antt =====
-- `OperationManager` of azure-iot-device/azure/iot/device/common/mqtt_transport.py. Its lock makes
-- each method's change of the state atomic. Callbacks are called once the lock is released, and what
-- they raise is caught, so `calls` lists them in the order in which they became due.
pub mod Order
pub mod Disjoint
pub mod Conservation
pub mod Samples
use azure_iot_dev.Prelude.{
  ℕ, Bool, true, false, ◌||◌, Option, none, some, List, [], ◌∷◌, ◌++◌, ◌==◌, if◌then◌else◌,
}

-- A dictionary of Python keeps the order of insertion; a callback is a number, or none.
abbrev pub Pending : Type 0
Pending = List (ℕ × Option ℕ)

unfoldable pub lookup : ℕ → Pending → Option (Option ℕ)
lookup mid [] = none
lookup mid ((m, callback) ∷ rest) = if m == mid then some callback else lookup mid rest

unfoldable pub insert : ℕ → Option ℕ → Pending → Pending
insert mid callback [] = (mid, callback) ∷ []
insert mid callback ((m, old) ∷ rest) =
    if m == mid then (m, callback) ∷ rest else (m, old) ∷ insert mid callback rest

unfoldable pub delete : ℕ → Pending → Pending
delete mid [] = []
delete mid ((m, callback) ∷ rest) = if m == mid then rest else (m, callback) ∷ delete mid rest

-- `_unknown_operation_completions` maps each mid to itself.
unfoldable pub has : ℕ → List ℕ → Bool
has mid [] = false
has mid (m ∷ rest) = m == mid || has mid rest

unfoldable pub record_mid : ℕ → List ℕ → List ℕ
record_mid mid [] = mid ∷ []
record_mid mid (m ∷ rest) = if m == mid then m ∷ rest else m ∷ record_mid mid rest

unfoldable pub forget : ℕ → List ℕ → List ℕ
forget mid [] = []
forget mid (m ∷ rest) = if m == mid then rest else m ∷ forget mid rest

-- The call of a callback for a mid, or of one with `cancelled=True`.
pub data Call : Type 0 where
  completed cancelled : (mid callback : ℕ) → Call

pub record Manager : Type 0 where
  pub pending_operation_callbacks : Pending
  pub unknown_operation_completions : List ℕ
  pub calls : List Call

unfoldable pub initial : Manager
initial = record {
  pending_operation_callbacks = [];
  unknown_operation_completions = [];
  calls = [];
}

abbrev pub trigger : ℕ → Option ℕ → List Call
trigger mid none = []
trigger mid (some callback) = completed mid callback ∷ []

unfoldable pub establish_operation : ℕ → Option ℕ → Manager → Manager
unfolding has forget insert
establish_operation mid callback m =
    if has mid m.unknown_operation_completions
    then record m {
      unknown_operation_completions = forget mid m.unknown_operation_completions;
      calls = m.calls ++ trigger mid callback;
    }
    else record m {
      pending_operation_callbacks = insert mid callback m.pending_operation_callbacks;
    }

abbrev pub complete_found : ℕ → Option (Option ℕ) → Manager → Manager
complete_found mid none m = record m {
  unknown_operation_completions = record_mid mid m.unknown_operation_completions;
}
complete_found mid (some callback) m = record m {
  pending_operation_callbacks = delete mid m.pending_operation_callbacks;
  calls = m.calls ++ trigger mid callback;
}

unfoldable pub complete_operation : ℕ → Manager → Manager
unfolding lookup delete record_mid
complete_operation mid m = complete_found mid (lookup mid m.pending_operation_callbacks) m

abbrev pub trigger_cancel : ℕ → Option ℕ → List Call
trigger_cancel mid none = []
trigger_cancel mid (some callback) = cancelled mid callback ∷ []

-- The loop over the copy of the pending operations.
unfoldable pub cancellations : Pending → List Call
cancellations [] = []
cancellations ((mid, callback) ∷ rest) = trigger_cancel mid callback ++ cancellations rest

unfoldable pub cancel_all_operations : Manager → Manager
unfolding cancellations
cancel_all_operations m = record {
  pending_operation_callbacks = [];
  unknown_operation_completions = [];
  calls = m.calls ++ cancellations m.pending_operation_callbacks;
}

pub data Request : Type 0 where
  establish : (mid : ℕ) (callback : Option ℕ) → Request
  complete : (mid : ℕ) → Request
  cancel_all : Request

unfoldable pub step : Request → Manager → Manager
unfolding establish_operation complete_operation cancel_all_operations
step (establish mid callback) m = establish_operation mid callback m
step (complete mid) m = complete_operation mid m
step cancel_all m = cancel_all_operations m

unfoldable pub run : List Request → Manager → Manager
run [] m = m
run (r ∷ rest) m = run rest (step r m)
