-- ===== src/Kiosk.antt =====
-- The kiosk page's runtime, internal/web/assets/kiosk.js: one module for each part of the script.
pub mod Reload
pub mod Countdown
pub mod Scroll
pub mod Slideshow
pub mod State
pub mod Overlay
pub mod Manual
pub mod Stage
pub mod Pip
pub mod Keys
mod Watchdog
