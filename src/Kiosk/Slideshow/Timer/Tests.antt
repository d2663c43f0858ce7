-- ===== src/Kiosk/Slideshow/Timer/Tests.antt =====
-- An album of two photos that change every eight seconds.
use familyplanner.Prelude.{◌+◌, ◌*◌, ◌≡◌, true, none, some, List, [], ◌∷◌, pos, negsuc}
use familyplanner.Kiosk.Slideshow.Timer.{Album, manual_step}
use familyplanner.Kiosk.Slideshow.Timer.Single.{Event, ran, key, react_all, armed, manual_puts_off}

abbrev album : Album
album = record {
  show = record {
    urls = "a" ∷ ("b" ∷ []);
    caps = [];
    order = 1 ∷ (0 ∷ []);
    position = 0;
    at = none;
    src = none;
    caption = "";
  };
  secs = 8;
  timers = record { id = 0; due = 8000 } ∷ [];
  handle = some 0;
  next_timer = 1;
}

abbrev before : List Event
before = ran 0 true 8000 2 ∷ (key (negsuc 0) 9000 3 ∷ [])

manual_puts_off_example :
    (manual_step (pos 1) 12000 4 (react_all before album)).0.timers
    ≡ record { id = (react_all before album).next_timer; due = 12000 + 8 * 1000 } ∷ []
manual_puts_off_example = manual_puts_off before (pos 1) 12000 4 album (armed 0 8000)
