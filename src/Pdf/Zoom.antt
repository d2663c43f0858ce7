-- ===== src/Pdf/Zoom.antt =====
-- The zoom of a PDF widget, pdf-widget.js: `fpPdfZoomEl` and `clamp`. A factor is a fraction.
mod Bounds
use familyplanner.Prelude.{
  ℕ, zero, ◌*◌, Bool, true, false, List, [], ◌∷◌, if◌then◌else◌, ltb, ℤ, pos,
}
use familyplanner.Kiosk.State.{is_positive}

pub record Factor : Type 0 where
  pub num : ℕ
  pub den : ℕ

-- `Math.max(0.3, Math.min(5, z))`
pub clamp : Factor → Factor
clamp z =
    if ltb (5 * z.den) z.num
    then record { num = 5; den = 1 }
    else if ltb (10 * z.num) (3 * z.den)
    then record { num = 3; den = 10 }
    else z

pub scaled : Bool → Factor → Factor
scaled true z = record { num = z.num * 5; den = z.den * 4 }
scaled false z = record { num = z.num * 4; den = z.den * 5 }

-- `fpPdfZoomEl(el, delta)`
pub zoom_el : ℤ → Factor → Factor
zoom_el (pos zero) z = record { num = 1; den = 1 }
zoom_el delta z = clamp (scaled (is_positive delta) z)

pub zoom_all : List ℤ → Factor → Factor
zoom_all [] z = z
zoom_all (d ∷ ds) z = zoom_all ds (zoom_el d z)
