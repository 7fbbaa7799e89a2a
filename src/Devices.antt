-- ===== src/Devices.antt =====
-- The devices that the tests choose among: util/aspect_set, util/kernel_restrictions,
-- util/device_set and util/device_manager.
pub mod Text
pub mod Aspects
pub mod Restrictions
pub mod DeviceSet
pub mod DeviceManager
mod Tests
