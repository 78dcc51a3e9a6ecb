-- ===== src/Transport.antt =====
-- The transports of azure-iot-device/azure/iot/device/common.
pub mod OperationManager
pub mod MqttTransport
