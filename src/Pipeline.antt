-- ===== src/Pipeline.antt =====
-- The pipeline of azure-iot-device/azure/iot/device/common/pipeline: operations and stages.
pub mod Operation
pub mod Ops
pub mod ConnectionLock
pub mod ConnectionState
pub mod Coordinate
pub mod Retry
pub mod SasToken
pub mod AutoConnect
pub mod MqttTransport
pub mod Connection
