-- ===== src/Pdf/Fit.antt =====
-- The size of a page on the screen, pdf-widget.js: the scale that `render` gives to a page. A page's size at
-- scale 1 is in any unit, since the scale divides it; scales and zooms are fractions.
mod Within
mod Tests
use familyplanner.Prelude.{ℕ, zero, suc, ◌*◌, ◌/◌, Bool, true, false, if◌then◌else◌, leb}
use familyplanner.Pdf.Zoom.{Factor}

-- `getViewport({ scale: 1 })`
pub record Sheet : Type 0 where
  pub width : ℕ
  pub height : ℕ

-- `el.clientWidth || 800`, and the same for the height
pub or_default : ℕ → ℕ → ℕ
or_default d zero = d
or_default d (suc n) = suc n

-- `base`, for a widget of `cw` by `ch` pixels
pub base : Bool → ℕ → ℕ → Sheet → Factor
base fit_page cw ch p =
    if fit_page
    then (if leb (cw * p.height) (ch * p.width)
        then record { num = cw; den = p.width }
        else record { num = ch; den = p.height })
    else record { num = cw; den = p.width }

-- `Math.floor(length * base * zoom)`
pub scaled : ℕ → Factor → Factor → ℕ
scaled length b z = length * b.num * z.num / (b.den * z.den)

-- The canvas of a page, for the widget's client sizes
pub canvas : Bool → ℕ → ℕ → Factor → Sheet → Sheet
canvas fit_page client_width client_height z p =
    let b = base fit_page (or_default 800 client_width) (or_default 600 client_height) p in
    record { width = scaled p.width b z; height = scaled p.height b z }
