-- ===== src/Server/Stream/Follow.antt =====
-- The view that the page has, against the one that the rotation shows.
use Prim.Native.String.{String}
use familyplanner.Prelude.{
  ℕ, ◌≡◌, refl, sym, ◌∙◌, Bool, true, false, Option, none, some, List, [], ◌∷◌, if◌then◌else◌,
  subst, pos,
}
use familyplanner.Kiosk.Stage.{Stage}
use familyplanner.Kiosk.Stage.Listen.{
  Config, navigate, refresh, names, version, config, listen, run,
}
use familyplanner.Kiosk.Stage.Listen.Current.{
  Same, IsOther, navigate-follows, dwell-told, other-Same,
}
use familyplanner.Server.Rotation.{Item, State, new_state, set_items, current, next as forth, go_to}
use familyplanner.Server.Rotation.Present.{
  shown, current_twice, set_items_same, set_items-items, go_to-items, next-items, command-items,
  new_state-items,
}
use familyplanner.Server.Stream.{
  Stream, shown_dwell, messages_of, send_current, show, UiCommand, ui_mute, ui_unmute, ui_toggle,
  ui_next, ui_prev, forward, commanded, signalled, forwarded, refreshed, advanced, chimed,
  signal_if, is_shown, jump_if, jump, step, Joined, Happening, served, happened, deliver, happen,
  happen_all, greeting, greet, connect,
}

-- The page is at the item, and has its dwell.
abbrev pub IsAt : (ℕ → String) → Bool → Option Item → Stage → Type 0
IsAt text paused none k = Unit
IsAt text paused (some it) k =
    (k.current ≡ some (text it.view))
    × (k.last_dwell ≡ (if paused then pos 0 else shown_dwell (some it)))

-- With the playlist `its`: unless a signal is pending, the page is at the item that the rotation shows.
pub record Follows (text : ℕ → String) (its : List Item) (j : Joined) : Type 0 where
  pub listed : j.server.state.items ≡ its
  pub there :
      j.server.notified ≡ false → IsAt text j.server.state.paused (shown j.server.state) j.page

IsAt-Same :
    (text : ℕ → String) (p : Bool) (o : Option Item) (k l : Stage)
    → Same k l
    → IsAt text p o k
    → IsAt text p o l
IsAt-Same text p none k l s h = tt
IsAt-Same text p (some it) k l s h = (s.0 ∙ h.0, s.1 ∙ h.1)

-- What was sent puts the page there.
sent-IsAt :
    (text : ℕ → String) (p : Bool) (o : Option Item) (k : Stage)
    → IsAt text p o (run (messages_of text p o) k).0
unfolding run messages_of
sent-IsAt text p none k = tt
sent-IsAt text p (some it) k =
    let v = text it.view in
    let n = if p then pos 0 else shown_dwell (some it) in
    let a = navigate-follows v k in
    let b = dwell-told n (listen (navigate v) k).0 in (b.0 ∙ a.0, b.1)

advance-items : (b : Bool) (s : State) → (if b then s else forth s).items ≡ s.items
advance-items true s = refl
advance-items false s = next-items s

Same-trans : (k l m : Stage) → Same k l → Same l m → Same k m
Same-trans k l m a b = (b.0 ∙ a.0, b.1 ∙ a.1)

-- The messages of a refresh.
pub refreshed-Same :
    (ns : List (String × String)) (c : Config) (k : Stage)
    → Same k (run (refresh ∷ config c ∷ names (some ns) ∷ []) k).0
unfolding run
refreshed-Same ns c k =
    let k₁ = (listen refresh k).0 in
    let k₂ = (listen (config c) k₁).0 in
    let k₃ = (listen (names (some ns)) k₂).0 in
    Same-trans k k₁ k₃ (other-Same refresh k tt)
      (Same-trans k₁ k₂ k₃ (other-Same (config c) k₁ tt) (other-Same (names (some ns)) k₂ tt))

-- The messages after the first view.
greeting-Same :
    (c : Config) (ns : List (String × String)) (b : String) (k : Stage)
    → Same k (run (greeting c ns b) k).0
unfolding run greeting
greeting-Same c ns b k =
    let k₁ = (listen (config c) k).0 in
    let k₂ = (listen (names (some ns)) k₁).0 in
    let k₃ = (listen (version b) k₂).0 in
    Same-trans k k₁ k₃ (other-Same (config c) k tt)
      (Same-trans k₁ k₂ k₃ (other-Same (names (some ns)) k₁ tt) (other-Same (version b) k₂ tt))

module _ (text : ℕ → String) (on_end : ℕ → Bool) where
  show-Follows :
      (its : List Item) (s : Stream) (k : Stage)
      → s.state.items ≡ its
      → Follows text its (deliver (show text on_end s) k)
  unfolding deliver show send_current
  show-Follows its s k e =
      let (c, (p, l)) = current_twice s.state in
      record {
        listed = l ∙ e;
        there = λ _.
            subst
              (λ o.
                IsAt text (current s.state).0.paused o
                  (run (messages_of text s.state.paused (shown s.state)) k).0)
              (sym c)
              (subst
                (λ q.
                  IsAt text q (shown s.state)
                    (run (messages_of text s.state.paused (shown s.state)) k).0)
                (sym p) (sent-IsAt text s.state.paused (shown s.state) k));
      }

  -- The page's own event, or a message that the rotation does not send.
  page-Follows :
      (its : List Item) (s : Stream) (k l : Stage)
      → Same k l
      → Follows text its (record { server = s; page = k })
      → Follows text its (record { server = s; page = l })
  page-Follows its s k l m f = record {
    listed = f.listed;
    there = λ n. IsAt-Same text s.state.paused (shown s.state) k l m (f.there n);
  }

  signal-Follows :
      (b : Bool) (its : List Item) (s : Stream) (k : Stage)
      → s.notified ≡ b
      → Follows text its (record { server = s; page = k })
      → Follows text its (deliver (signal_if text on_end b s) k)
  unfolding signal_if deliver run
  signal-Follows true its s k e f = show-Follows its (record s { notified = false }) k f.listed
  signal-Follows false its s k e f = f

  jump-Follows :
      (p q : Bool) (v : ℕ) (its : List Item) (s : Stream) (k : Stage)
      → Follows text its (record { server = s; page = k })
      → Follows text its (deliver (jump_if text on_end p q v s) k)
  unfolding jump_if deliver run
  jump-Follows true q v its s k f = f
  jump-Follows false true v its s k f =
      let (c, (p, l)) = current_twice s.state in
      record {
        listed = l ∙ f.listed;
        there = λ n.
            subst (λ o. IsAt text (current s.state).0.paused o k) (sym c)
              (subst (λ b. IsAt text b (shown s.state) k) (sym p) (f.there n));
      }
  jump-Follows false false v its s k f =
      let (c, (p, l)) = current_twice s.state in
      show-Follows its (record s { state = go_to v (current s.state).0 }) k
        (go_to-items v (current s.state).0 ∙ l ∙ f.listed)

  chime-Follows :
      (o : Option ℕ) (its : List Item) (s : Stream) (k : Stage)
      → Follows text its (record { server = s; page = k })
      → Follows text its (deliver (jump text on_end o s) k)
  unfolding jump deliver run
  chime-Follows none its s k f = f
  chime-Follows (some v) its s k f =
      jump-Follows s.state.paused (is_shown v (current s.state).1) v its s k f

  -- The playlist is not edited, and nobody but the stream names a view to the page or tells it a dwell.
  abbrev pub IsUnedited : List Item → Happening → Type 0
  IsUnedited its (served (refreshed xs ns c)) = xs ≡ its
  IsUnedited its (served e) = Unit
  IsUnedited its (happened m) = IsOther m

  abbrev pub AreUnedited : List Item → List Happening → Type 0
  AreUnedited its [] = Unit
  AreUnedited its (h ∷ hs) = IsUnedited its h × AreUnedited its hs

  forward-IsOther : (c : UiCommand) → IsOther (forward c)
  unfolding forward
  forward-IsOther ui_mute = tt
  forward-IsOther ui_unmute = tt
  forward-IsOther ui_toggle = tt
  forward-IsOther ui_next = tt
  forward-IsOther ui_prev = tt

  refresh-Follows :
      (its xs : List Item) (ns : List (String × String)) (c : Config) (j : Joined)
      → xs ≡ its
      → Follows text its j
      → Follows text its (deliver (step text on_end (refreshed xs ns c) j.server) j.page)
  unfolding step deliver run
  refresh-Follows its xs ns c j e f =
      let t = set_items-items xs j.server.state in
      let m = refreshed-Same ns c j.page in
      record {
        listed = t.0 ∙ e;
        there = λ n.
            IsAt-Same text (set_items xs j.server.state).paused
              (shown (set_items xs j.server.state)) j.page
              (run (refresh ∷ config c ∷ names (some ns) ∷ []) j.page).0 m
              (subst (λ b. IsAt text b (shown (set_items xs j.server.state)) j.page) (sym t.1)
                (subst (λ o. IsAt text j.server.state.paused o j.page)
                  (sym (set_items_same xs j.server.state (f.listed ∙ sym e))) (f.there n)));
      }

  happen-Follows :
      (h : Happening) (its : List Item) (j : Joined)
      → IsUnedited its h
      → Follows text its j
      → Follows text its (happen text on_end h j)
  unfolding happen step deliver run
  happen-Follows (served (commanded c)) its j u f = record {
    listed = command-items c j.server.state ∙ f.listed;
    there = λ n. absurd (cc n);
  }
  happen-Follows (served signalled) its j u f =
      signal-Follows j.server.notified its j.server j.page refl f
  happen-Follows (served (forwarded c)) its j u f =
      page-Follows its j.server j.page (listen (forward c) j.page).0
        (other-Same (forward c) j.page (forward-IsOther c)) f
  happen-Follows (served (refreshed xs ns c)) its j u f = refresh-Follows its xs ns c j u f
  happen-Follows (served advanced) its j u f =
      show-Follows its
        (record (j.server) {
          state = if j.server.state.paused then j.server.state else forth j.server.state;
        })
        j.page (advance-items j.server.state.paused j.server.state ∙ f.listed)
  happen-Follows (served (chimed o)) its j u f = chime-Follows o its j.server j.page f
  happen-Follows (happened m) its j u f =
      page-Follows its j.server j.page (listen m j.page).0 (other-Same m j.page u) f

  pub happen_all-Follows :
      (hs : List Happening) (its : List Item) (j : Joined)
      → AreUnedited its hs
      → Follows text its j
      → Follows text its (happen_all text on_end hs j)
  unfolding happen_all
  happen_all-Follows [] its j u f = f
  happen_all-Follows (h ∷ hs) its j u f =
      happen_all-Follows hs its (happen text on_end h j) u.1 (happen-Follows h its j u.0 f)

  pub run-Follows :
      (its : List Item) (c : Config) (ns : List (String × String)) (b : String) (k : Stage)
      (hs : List Happening)
      → AreUnedited its hs
      → Follows text its (happen_all text on_end hs (connect text on_end its c ns b k))
  unfolding connect greet
  run-Follows its c ns b k hs u =
      let s : Stream = record { state = new_state its; notified = false; advance = pos 30 } in
      let d = deliver (show text on_end s) k in
      happen_all-Follows hs its (greet (greeting c ns b) d) u (
        page-Follows its d.server d.page (run (greeting c ns b) d.page).0
          (greeting-Same c ns b d.page) (show-Follows its s k (new_state-items its)))

  -- From the connection of the page on, as long as the playlist is not edited: whatever commands, chimes,
  -- refreshes and ends of dwells there are, and whatever else happens to the page, it follows the view of
  -- the item that the rotation shows and has its dwell, 0 while paused, whenever no command waits for the
  -- stream.
  pub page_follows :
      (its : List Item) (c : Config) (ns : List (String × String)) (b : String) (k : Stage)
      (hs : List Happening) (it : Item)
      → AreUnedited its hs
      → let j = happen_all text on_end hs (connect text on_end its c ns b k) in
        j.server.notified ≡ false
        → shown j.server.state ≡ some it
        → (j.page.current ≡ some (text it.view))
          × (j.page.last_dwell ≡ (if j.server.state.paused then pos 0 else shown_dwell (some it)))
  page_follows its c ns b k hs it u n e =
      let j = happen_all text on_end hs (connect text on_end its c ns b k) in
      subst (λ o. IsAt text j.server.state.paused o j.page) e
        ((run-Follows its c ns b k hs u).there n)
