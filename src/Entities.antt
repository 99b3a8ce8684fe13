-- ===== src/Entities.antt =====
-- components/dspi/number, switch, select, sensor and text_sensor: the listeners of the hub.
pub mod Float
pub mod Listener
pub mod Number
pub mod Switch
pub mod Select
pub mod Sensor
pub mod TextSensor
pub mod Registered
pub mod Current
pub mod Synced
pub mod Echo
pub mod Chosen
pub mod Dump
pub mod Wish
