-- ===== src/Auth.antt =====
-- The authentication data of azure-iot-device/azure/iot/device/common/auth.
pub mod ConnectionString
