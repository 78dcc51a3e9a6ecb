-- ===== src/Provisioning/Exchange.antt =====
-- `CommonProvisioningStage`, `PollingStatusStage` and `RegistrationStage` of
-- azure-iot-device/azure/iot/device/provisioning/pipeline/pipeline_stages_provisioning.py: the
-- exchange of one operation with the service. The stages keep no state of their own; the timers
-- are attributes of the operation, and a timer that fires has its function called on the pipeline
-- thread later. JSON decoding is not modelled: a body is what `json.loads` makes of it.
pub mod Steps
pub mod Single
pub mod Attempts
pub mod Outcome
pub mod Refinement
pub mod Late
pub mod Samples
use azure_iot_dev.Prelude.{
  ℕ, suc, ◌+◌, ◌-◌, Bool, true, false, not, ◌&&◌, ◌||◌, Option, none, some, List, [], ◌∷◌, ◌++◌,
  ltb, leb, if◌then◌else◌,
}
use azure_iot_dev.Errors.{Error}
use azure_iot_dev.Text.{Text, codes, text_eq}

-- What `json.loads` makes of a text. `null` is Python's `None`.
mutual
  pub data Json : Type 0 where
    null : Json
    text : Text → Json
    boolean : Bool → Json
    number : ℕ → Json
    array : Items → Json
    object : Members → Json

  pub data Items : Type 0 where
    no_items : Items
    item : Json → Items → Items

  pub data Members : Type 0 where
    no_members : Members
    member : Text → Json → Members → Members

abbrev pub is_text : Text → Json → Bool
is_text expected (text t) = text_eq expected t
is_text expected _ = false

-- `members.get(key, None)`; the keys of a dictionary are different.
unfoldable pub get : Text → Members → Json
get key no_members = null
get key (member k value rest) = let found = get key rest in if text_eq k key then value else found

pub data Purpose : Type 0 where
  register query : Purpose

pub record RegistrationState : Type 0 where
  pub device_id : Json
  pub assigned_hub : Json
  pub sub_status : Json
  pub created_date_time : Json
  pub last_update_date_time : Json
  pub etag : Json
  pub payload : Json

pub record RegistrationResult : Type 0 where
  pub operation_id : Json
  pub status : Json
  pub registration_state : Option RegistrationState

-- Why an operation fails. All but the error of the request are a `ServiceError`.
pub data Failure : Type 0 where
  request_failed : Error → Failure
  timed_out : Failure
  error_status registration_failed : (status_code : ℕ) → Failure
  invalid_status : (status : Json) (status_code : ℕ) → Failure

-- The value of the response's `retry_after`: missing, what `int` makes of it in seconds (a negative
-- one, whose timer fires at once, is 0 here), or a text that is no number.
pub data RetryAfter : Type 0 where
  absent invalid : RetryAfter
  seconds : ℕ → RetryAfter

-- The request operation once it is completed without an error. The body is `none` when it cannot be
-- decoded.
pub record Response : Type 0 where
  pub status_code : ℕ
  pub retry_after : RetryAfter
  pub response_body : Option Json

-- A timer's attribute of an operation: `None`, a timer that runs, or one that has fired.
pub data Timer : Type 0 where
  unset fired : Timer
  running : (interval : ℕ) → Timer

-- The functions of the timers: `query_timeout` or `register_timeout`, `do_retry_after`, and
-- `do_polling` or `do_query_after_interval`.
pub data Call : Type 0 where
  timeout do_retry_after do_polling : Call

-- `crashed` is an exception that no operation is completed with: of a response that cannot be
-- decoded, or of a timer that is `None`. `already_completed` is the `OperationError` of a second
-- completion.
pub data Output : Type 0 where
  sent_request : (operation_id : Json) → Output
  sent_poll : (operation_id : Json) → Output
  completed : Option Failure → Option RegistrationResult → Output
  already_completed : Option Failure → Output
  crashed : Output

-- A `RegisterOperation` or `PollStatusOperation`. `outstanding` counts its requests that are not
-- answered, `polls` its `PollStatusOperation`s that are not completed, and `posted` lists the
-- timers' functions that wait for the pipeline thread. `poll_operation_id` is what
-- `do_query_after_interval` keeps of the response.
pub record Operation : Type 0 where
  pub purpose : Purpose
  pub operation_id : Json
  pub is_completed : Bool
  pub registration_result : Option RegistrationResult
  pub provisioning_timeout_timer : Timer
  pub retry_after_timer : Timer
  pub polling_timer : Timer
  pub poll_operation_id : Json
  pub posted : List Call
  pub outstanding : ℕ
  pub polls : ℕ
  pub outputs : List Output

unfoldable pub new_operation : Purpose → Json → Operation
new_operation purpose operation_id = record {
  purpose = purpose;
  operation_id = operation_id;
  is_completed = false;
  registration_result = none;
  provisioning_timeout_timer = unset;
  retry_after_timer = unset;
  polling_timer = unset;
  poll_operation_id = null;
  posted = [];
  outstanding = 0;
  polls = 0;
  outputs = [];
}

abbrev pub emit : Output → Operation → Operation
emit output op = record op { outputs = op.outputs ++ output ∷ [] }

abbrev pub default_polling_interval : ℕ
default_polling_interval = 2

abbrev pub default_timeout_interval : ℕ
default_timeout_interval = 30

-- `op.complete(error)`
unfoldable pub complete : Option Failure → Operation → Operation
complete error op =
    if op.is_completed
    then emit (already_completed error) op
    else emit (completed error op.registration_result) (record op { is_completed = true })

-- `_run_op` for the operation: its time-out starts, and the request goes down.
unfoldable pub run_op : Operation → Operation
run_op op = emit (sent_request op.operation_id) (record op {
  provisioning_timeout_timer = running default_timeout_interval;
  outstanding = suc op.outstanding;
})

-- `_clear_timeout_timer`
unfoldable pub clear_timeout_timer : Operation → Operation
clear_timeout_timer op = record op { provisioning_timeout_timer = unset }

-- The interval of the next attempt; `none` when `int` raises.
unfoldable pub interval_of : RetryAfter → Option ℕ
interval_of absent = some default_polling_interval
interval_of invalid = none
interval_of (seconds n) = some n

abbrev pub registration_state_of : Members → RegistrationState
registration_state_of state = record {
  device_id = get (codes "deviceId") state;
  assigned_hub = get (codes "assignedHub") state;
  sub_status = get (codes "substatus") state;
  created_date_time = get (codes "createdDateTimeUtc") state;
  last_update_date_time = get (codes "lastUpdatedDateTimeUtc") state;
  etag = get (codes "etag") state;
  payload = get (codes "payload") state;
}

-- `_form_complete_result`; `none` when a state that is no dictionary raises.
unfoldable pub form_complete_result : Json → Json → Json → Option RegistrationResult
form_complete_result operation_id status null =
    some (record { operation_id = operation_id; status = status; registration_state = none })
form_complete_result operation_id status (object state) = some (record {
  operation_id = operation_id;
  status = status;
  registration_state = some (registration_state_of state);
})
form_complete_result operation_id status _ = none
