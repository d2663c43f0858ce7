-- ===== src/Pdf/Zoom/Bounds.antt =====
-- A zoom stays between 0.3 and 5, and two opposite ones undo each other.
use familyplanner.Prelude.{
  zero, suc, ◌*◌, ◌<◌, ◌≤◌, arith, Bool, true, false, List, [], ◌∷◌, ℤ, pos, negsuc,
}
use familyplanner.Pdf.Zoom.{Factor, clamp, scaled, zoom_el, zoom_all}

pub record IsInBounds (z : Factor) : Type 0 where
  pub positive : 0 < z.den
  pub least : 3 * z.den ≤ 10 * z.num
  pub most : z.num ≤ 5 * z.den

clamp-IsInBounds : (z : Factor) → 0 < z.den → IsInBounds (clamp z)
unfolding clamp
clamp-IsInBounds z h = ground arith

scaled-positive : (b : Bool) (z : Factor) → 0 < z.den → 0 < (scaled b z).den
unfolding scaled
scaled-positive true z h = omega arith
scaled-positive false z h = omega arith

zoom_el-IsInBounds : (d : ℤ) (z : Factor) → IsInBounds z → IsInBounds (zoom_el d z)
unfolding zoom_el
zoom_el-IsInBounds (pos zero) z v = record {
  positive = omega arith;
  least = omega arith;
  most = omega arith;
}
zoom_el-IsInBounds (pos (suc n)) z v =
    clamp-IsInBounds (scaled true z) (scaled-positive true z v.positive)
zoom_el-IsInBounds (negsuc n) z v =
    clamp-IsInBounds (scaled false z) (scaled-positive false z v.positive)

-- Whatever the zoom buttons do, in any order, the factor stays between 0.3 and 5.
pub zoom_all-IsInBounds : (ds : List ℤ) (z : Factor) → IsInBounds z → IsInBounds (zoom_all ds z)
unfolding zoom_all
zoom_all-IsInBounds [] z v = v
zoom_all-IsInBounds (d ∷ ds) z v = zoom_all-IsInBounds ds (zoom_el d z) (zoom_el-IsInBounds d z v)
