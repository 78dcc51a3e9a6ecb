-- ===== src/Auth/ConnectionString/Samples.antt =====
-- Connection strings at concrete inputs.
use azure_iot_dev.Prelude.{◌≡◌, refl, true, false, none, [], ◌∷◌, all}
use azure_iot_dev.Text.{Text, codes, split, split_once}
use azure_iot_dev.Iothub.Topic.{Properties, set_property}
use azure_iot_dev.Iothub.Message.{has_duplicates}
use azure_iot_dev.Auth.ConnectionString.{
  ok, err, unable_to_parse, invalid_key, mixed_authentication_scheme, incomplete, is_valid_key, get,
  validate_keys, read_args, parse_connection_string,
}
use azure_iot_dev.Auth.ConnectionString.Pieces.{print}
use azure_iot_dev.Auth.ConnectionString.Parse.{parsed_is_printed}

abbrev text : Text
text = codes "HostName=h;DeviceId=d;SharedAccessKey=a=="

abbrev entries : Properties
entries =
    (codes "HostName", codes "h")
    ∷ (codes "DeviceId", codes "d")
    ∷ (codes "SharedAccessKey", codes "a==")
    ∷ []

parse_text : parse_connection_string text ≡ ok entries
unfolding parse_connection_string split split_once read_args set_property is_valid_key validate_keys
    get
parse_text = refl

parse_duplicate : parse_connection_string (codes "HostName=h;HostName=g") ≡ err unable_to_parse
unfolding parse_connection_string split split_once read_args set_property
parse_duplicate = refl

parse_unknown : parse_connection_string (codes "HostName=h;Colour=red") ≡ err invalid_key
unfolding parse_connection_string split split_once read_args set_property is_valid_key
parse_unknown = refl

parse_mixed :
    parse_connection_string (codes "HostName=h;DeviceId=d;SharedAccessKey=a;x509=true")
    ≡ err mixed_authentication_scheme
unfolding parse_connection_string split split_once read_args set_property is_valid_key validate_keys
    get
parse_mixed = refl

parse_incomplete : parse_connection_string (codes "HostName=h;DeviceId=d") ≡ err incomplete
unfolding parse_connection_string split split_once read_args set_property is_valid_key validate_keys
    get
parse_incomplete = refl

parsed_is_printed_example :
    (print entries ≡ text)
    × (has_duplicates entries ≡ false)
    × (all (λ p. is_valid_key p.0) entries ≡ true)
    × (validate_keys entries ≡ none)
parsed_is_printed_example = parsed_is_printed text entries parse_text
