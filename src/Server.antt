-- ===== src/Server.antt =====
-- The parts of the server, in Go, that the scripts work with: the layouts behind the editor, the rotation of
-- a device, the table of the devices, the event stream that the kiosk listens to, and the schedule of the voice clock.
pub mod Tree
pub mod Rotation
pub mod Devices
pub mod Stream
pub mod Chimes
pub mod Cache
pub mod Shows
