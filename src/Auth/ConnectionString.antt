-- ===== src/Auth/ConnectionString.antt =====
-- azure-iot-device/azure/iot/device/common/auth/connection_string.py: parsing and validation.
pub mod Pieces
pub mod Parse
pub mod Print
pub mod Samples
use azure_iot_dev.Prelude.{
  ℕ, Bool, true, false, not, ◌&&◌, ◌||◌, Option, none, some, List, [], ◌∷◌, ◌==◌, if◌then◌else◌,
  length, all,
}
use azure_iot_dev.Text.{Text, codes, text_eq, split, split_once}
use azure_iot_dev.Iothub.Topic.{Properties, set_property, truthy}

-- The `ValueError`s, told apart by their messages.
pub data ConnectionStringError : Type 0 where
  unable_to_parse invalid_key mixed_authentication_scheme incomplete : ConnectionStringError

pub data Result : Type 0 where
  ok : Properties → Result
  err : ConnectionStringError → Result

abbrev pub host_name : Text
host_name = codes "HostName"

abbrev pub shared_access_key_name : Text
shared_access_key_name = codes "SharedAccessKeyName"

abbrev pub shared_access_key : Text
shared_access_key = codes "SharedAccessKey"

abbrev pub shared_access_signature : Text
shared_access_signature = codes "SharedAccessSignature"

abbrev pub device_id : Text
device_id = codes "DeviceId"

abbrev pub module_id : Text
module_id = codes "ModuleId"

abbrev pub gateway_host_name : Text
gateway_host_name = codes "GatewayHostName"

abbrev pub x509 : Text
x509 = codes "x509"

unfoldable pub is_valid_key : Text → Bool
is_valid_key key =
    text_eq key host_name
    || text_eq key shared_access_key_name
    || text_eq key shared_access_key
    || text_eq key shared_access_signature
    || text_eq key device_id
    || text_eq key module_id
    || text_eq key gateway_host_name
    || text_eq key x509

-- `d.get(key)`
unfoldable pub get : Text → Properties → Option Text
get key [] = none
get key ((k, v) ∷ rest) = if text_eq k key then some v else get key rest

-- `_validate_keys`: the error that it raises, if it does.
unfoldable pub validate_keys : Properties → Option ConnectionStringError
unfolding get
validate_keys d =
    let host = truthy (get host_name d) in
    let key = truthy (get shared_access_key d) in
    let certificate = truthy (get x509 d) in
    if key && certificate
    then some mixed_authentication_scheme
    else if host && truthy (get device_id d) && (key || certificate)
    then none
    else if host && key && truthy (get shared_access_key_name d)
    then none
    else some incomplete

-- `arg.split("=", 1)` as a key and a value, if it is both.
abbrev pub pair_of : List Text → Option (Text × Text)
pair_of (key ∷ value ∷ []) = some (key, value)
pair_of _ = none

-- `dict(...)` of the arguments; one that is no pair is an error.
unfoldable pub read_args : List Text → Properties → Option Properties
unfolding split_once set_property
read_args [] d = some d
read_args (arg ∷ rest) d = elim (pair_of (split_once b'=' arg)) [
  | none ↦ none
  | some p ↦ read_args rest (set_property p.0 p.1 d)
]

abbrev pub checked : Option ConnectionStringError → Properties → Result
checked none d = ok d
checked (some e) d = err e

abbrev pub validated : ℕ → Option Properties → Result
validated args none = err unable_to_parse
validated args (some d) =
    if not (args == length d)
    then err unable_to_parse
    else if not (all (λ p. is_valid_key p.0) d)
    then err invalid_key
    else checked (validate_keys d) d

unfoldable pub parse_connection_string : Text → Result
unfolding read_args validate_keys is_valid_key
parse_connection_string connection_string =
    let cs_args = split b';' connection_string in validated (length cs_args) (read_args cs_args [])
