-- ===== src/Pdf.antt =====
-- The PDF widgets, internal/web/assets/pdf-widget.js.
pub mod Slides
pub mod Roll
pub mod Zoom
pub mod Fit
pub mod Setup
