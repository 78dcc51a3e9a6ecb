-- ===== src/Iothub.antt =====
-- azure-iot-device/azure/iot/device/iothub.
pub mod Topic
pub mod Message
pub mod DesiredProperties
pub mod Translation
pub mod Inboxes
pub mod MqttPipeline
