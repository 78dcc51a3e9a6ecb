-- ===== src/Provisioning.antt =====
-- The provisioning client of azure-iot-device/azure/iot/device/provisioning.
pub mod Topic
pub mod Exchange
pub mod Translation
