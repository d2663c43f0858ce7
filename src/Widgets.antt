-- ===== src/Widgets.antt =====
-- The set-ups that kiosk.js `loadView` makes on a view that came, where the other scripts are there:
-- `fpSetupVideos`, `fpSetupPdfs` and `fpSetupClocks`. The elements of a view are new with it.
mod Fresh
mod Tests
use familyplanner.Prelude.{Bool, none, List, [], ◌∷◌, ℤ, map}
use familyplanner.Videos.Loading.{Loader}
use familyplanner.Videos.Loading.Stage.{Screen, View, put}
use familyplanner.Pdf.Setup.{Holder, set_up_pdfs}
use familyplanner.ClockFace.Loop.{Dial, Page, setup_clocks}

-- The attributes of a `.w-pdf`.
pub record Tag : Type 0 where
  pub has_url : Bool
  pub interval : ℤ
  pub fit_width : Bool

-- A view as it comes, with what yt.js, pdf-widget.js and clockface.js read of it.
pub record Markup : Type 0 where
  pub films : View
  pub pdfs : List Tag
  pub dials : List Dial

-- What the three scripts keep, and the PDF widgets on the stage.
pub record Widgets : Type 0 where
  pub players : Loader Screen
  pub pdfs : List Holder
  pub clocks : Page

pub holder : Tag → Holder
holder t = record {
  has_url = t.has_url;
  interval = t.interval;
  fit_width = t.fit_width;
  widget = none;
}

-- The new content, and the three set-ups.
pub load : Markup → Widgets → Widgets
load m w = record {
  players = put m.films w.players;
  pdfs = set_up_pdfs m.films.advance_on_end (map holder m.pdfs);
  clocks = setup_clocks m.dials w.clocks;
}

pub load_all : List Markup → Widgets → Widgets
load_all [] w = w
load_all (m ∷ ms) w = load_all ms (load m w)
