-- ===== src/Errors.antt =====
-- The exception classes that travel through a pipeline
-- (azure-iot-device/azure/iot/device/common/pipeline/pipeline_exceptions.py,
-- azure-iot-device/azure/iot/device/common/transport_exceptions.py and
-- azure-iot-device/azure/iot/device/common/auth/sastoken.py).
use azure_iot_dev.Prelude.{ℕ}

-- `other` stands for every class that the pipeline does not name, told apart by a number.
pub data Error : Type 0 where
  operation_cancelled operation_timeout operation_error : Error
  pipeline_not_running pipeline_runtime_error : Error
  connection_failed_error connection_dropped_error no_connection_error : Error
  unauthorized_error protocol_client_error tls_exchange_auth_error protocol_proxy_error : Error
  sas_token_error attribute_error service_error value_error type_error : Error
  other : ℕ → Error
