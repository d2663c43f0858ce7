-- ===== src/Pdf/Fit/Tests.antt =====
-- An upright page of 600 by 800 points in a widget of 900 by 600 pixels.
use familyplanner.Prelude.{◌≡◌, refl, true}
use familyplanner.Pdf.Fit.{Sheet, or_default, base, scaled, canvas}
use familyplanner.Pdf.Fit.Within.{unscaled}

abbrev upright : Sheet
upright = record { width = 600; height = 800 }

upright_size : canvas true 900 600 unscaled upright ≡ record { width = 450; height = 600 }
unfolding canvas scaled base or_default
upright_size = refl
