-- ===== src/ClockFace.antt =====
-- The clock-face widget, internal/web/assets/clockface.js: the number of the week, the animation of the
-- hands, and the texts beside the dial.
pub mod Week
pub mod Loop
pub mod Panel
mod Tests
