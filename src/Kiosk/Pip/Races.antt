-- ===== src/Kiosk/Pip/Races.antt =====
-- What the corner's fetches and timers do over time: a full round, and two fetches at once.
use familyplanner.Prelude.{
  ℕ, zero, suc, ◌+◌, ◌*◌, ◌<◌, pos_part, max_ℤ, negsuc, ◌≡◌, refl, sym, subst, ◌∙◌, ap, Bool, true,
  false, not, ◌||◌, Option, none, some, List, [], ◌∷◌, ◌++◌, arith, if◌then◌else◌, ◌==◌, length,
  get_elem?, get_elem?_of_lt, ℤ, pos, ◌+ℤ◌,
}
use familyplanner.Kiosk.Pip.{
  Item, Content, Pip, clear, clear_timer, set_timer, stop_players, wrap, fetch, turn, rotate,
  rotate_unless, is_unlisted, pip_next, ends_itself, put, pip_progress, bar_of, show, show_if,
  dwell_ms, page, settle, answer, timer_due, due_if, remove_at, remove, has,
}
use familyplanner.Kiosk.Pip.Index.{wrap-lt, wrap_next}

-- The view at place `k` of the playlist is being fetched, and nothing else is under way.
pub record IsFetching (items : List Item) (k : ℕ) (s : Pip) : Type 0 where
  pub built : s.built ≡ true
  pub playlist : s.items ≡ items
  pub at : s.idx ≡ k
  pub item : Item
  pub item_at : get_elem? items k ≡ some item
  pub pending : s.pending ≡ item ∷ []
  pub timers : s.timers ≡ []

-- The place after `k` in a list of `n`.
abbrev pub after : ℕ → ℕ → ℕ
after n k = if k + 1 == n then 0 else k + 1

clear-nil : (h : Option ℕ) → clear h [] ≡ []
unfolding clear remove
clear-nil none = refl
clear-nil (some k) = refl

fetch-one :
    (item : Item) (o : Option Item) (s : Pip)
    → o ≡ some item
    → s.pending ≡ []
    → fetch o s ≡ record s { pending = item ∷ [] }
unfolding fetch
fetch-one item o s e p = rw (e, p) refl

turn-IsFetching :
    (items : List Item) (i : ℤ) (s : Pip)
    → s.built ≡ true
    → s.items ≡ items
    → s.pending ≡ []
    → s.timers ≡ []
    → 0 < length items
    → IsFetching items (wrap i (length items)) (turn i s)
unfolding turn stop_players clear_timer
turn-IsFetching items i s b e p t l =
    let g = get_elem?_of_lt items (wrap i (length items)) (wrap-lt i (length items) l) in
    let at : get_elem? s.items (wrap i (length s.items)) ≡ some g.0 =
      ap (λ xs. get_elem? xs (wrap i (length xs))) e ∙ g.1 in
    let u = stop_players (clear_timer (record s { idx = wrap i (length s.items) })) in
    subst (IsFetching items (wrap i (length items)))
      (sym (fetch-one g.0 (get_elem? s.items (wrap i (length s.items))) u at p))
      (record {
        built = b;
        playlist = e;
        at = ap (λ xs. wrap i (length xs)) e;
        item = g.0;
        item_at = g.1;
        pending = refl;
        timers = ap (clear s.handle) t ∙ clear-nil s.handle;
      })

is_unlisted_lem : (xs : List Item) → 0 < length xs → is_unlisted xs ≡ false
unfolding is_unlisted
is_unlisted_lem [] h = elim h [ ]
is_unlisted_lem (x ∷ xs) h = refl

rotate-turn : (i : ℤ) (s : Pip) → s.built ≡ true → 0 < length s.items → rotate i s ≡ turn i s
unfolding rotate rotate_unless
rotate-turn i s b l =
    ap (λ t. rotate_unless (not t || is_unlisted s.items) i s) b
    ∙ ap (λ t. rotate_unless t i s) (is_unlisted_lem s.items l)

next-IsFetching :
    (items : List Item) (k : ℕ) (s : Pip)
    → s.built ≡ true
    → s.items ≡ items
    → s.idx ≡ k
    → s.pending ≡ []
    → s.timers ≡ []
    → k < length items
    → IsFetching items (after (length items) k) (pip_next s)
unfolding pip_next
next-IsFetching items k s b e i p t l =
    let positive : 0 < length items = omega arith in
    let r : rotate (pos s.idx +ℤ pos 1) s ≡ turn (pos s.idx +ℤ pos 1) s =
      rotate-turn (pos s.idx +ℤ pos 1) s b (subst (λ xs. 0 < length xs) (sym e) positive) in
    let w : wrap (pos s.idx +ℤ pos 1) (length items) ≡ after (length items) k =
      ap (λ j. wrap (pos j +ℤ pos 1) (length items)) i ∙ wrap_next (length items) k l in
    subst (λ j. IsFetching items j (rotate (pos s.idx +ℤ pos 1) s)) w
      (subst (IsFetching items (wrap (pos s.idx +ℤ pos 1) (length items))) (sym r)
        (turn-IsFetching items (pos s.idx +ℤ pos 1) s b e p t positive))

pub answer-first :
    (item : Item) (rest : List Item) (c : Content) (s : Pip)
    → s.built ≡ true
    → s.pending ≡ item ∷ rest
    → answer 0 (page c) s ≡ show_if true (ends_itself item c) item c (record s { pending = rest })
unfolding answer settle show remove_at
answer-first item rest c s b p =
    ap (λ ps. settle (get_elem? ps 0) (page c) (record s { pending = remove_at 0 ps })) p
    ∙ ap (λ t. show_if t (ends_itself item c) item c (record s { pending = rest })) b

timer_due-set :
    (n : ℕ) (ts : List ℕ)
    → ts ≡ []
    → (has n (ts ++ (n ∷ [])) ≡ true) × (remove n (ts ++ (n ∷ [])) ≡ [])
unfolding remove
timer_due-set n ts e = rw e (ground arith, ground arith)

shown-one :
    (item : Item) (c : Content) (b : Bool) (s : Pip) → (show_if true b item c s).shown ≡ some item
unfolding show_if put set_timer
shown-one item c true s = refl
shown-one item c false s = refl

-- The corner with the view that came.
abbrev pub arrived_state : Item → Content → Pip → Pip
arrived_state item c s = put item c (record s { pending = [] })

pub timed-IsFetching :
    (items : List Item) (k : ℕ) (ms : ℕ) (s : Pip)
    → s.built ≡ true
    → s.items ≡ items
    → s.idx ≡ k
    → s.pending ≡ []
    → s.timers ≡ []
    → k < length items
    → IsFetching items (after (length items) k) (timer_due s.next_timer (set_timer ms s))
unfolding timer_due set_timer due_if
timed-IsFetching items k ms s b e i p t l =
    let d = timer_due-set s.next_timer s.timers t in
    let u = set_timer ms s in
    subst (λ h. IsFetching items (after (length items) k) (due_if h s.next_timer u)) (sym d.0)
      (next-IsFetching items k (record u { timers = remove s.next_timer u.timers }) b e i p d.1 l)

-- How the corner leaves the view in it: at the view's own end, or when timer `n` runs.
pub leave : Bool → ℕ → Pip → Pip
leave true n s = pip_next s
leave false n s = timer_due n s

-- What the arrival of the fetched view makes of the corner.
abbrev dwelt : Bool → Item → Content → Pip → Pip
dwelt b item c s = show_if true b item c (record s { pending = [] })

leave-IsFetching :
    (items : List Item) (k : ℕ) (b : Bool) (item : Item) (c : Content) (s : Pip)
    → s.built ≡ true
    → s.items ≡ items
    → s.idx ≡ k
    → s.timers ≡ []
    → k < length items
    → IsFetching items (after (length items) k) (leave b s.next_timer (dwelt b item c s))
unfolding leave show_if put
leave-IsFetching items k true item c s b e i t l =
    next-IsFetching items k (pip_progress 0 (arrived_state item c s)) b e i refl t l
leave-IsFetching items k false item c s b e i t l =
    timed-IsFetching items k (dwell_ms item) (pip_progress (dwell_ms item) (arrived_state item c s))
      b e i refl t l

delay-dwelt :
    (b : Bool) (item : Item) (c : Content) (s : Pip)
    → (dwelt b item c s).delay ≡ (if b then s.delay else dwell_ms item)
unfolding show_if put set_timer
delay-dwelt true item c s = refl
delay-dwelt false item c s = refl

bar_of-some : (n : ℕ) → 0 < n → bar_of n ≡ some n
bar_of-some zero h = absurd (omega arith)
bar_of-some (suc n) h = refl

three_at_least : (d : ℤ) → 0 < pos_part (max_ℤ (pos 3) d)
three_at_least (pos n) = ground arith
three_at_least (negsuc n) = ground arith

dwell-positive : (item : Item) → bar_of (dwell_ms item) ≡ some (dwell_ms item)
unfolding dwell_ms
dwell-positive item =
    bar_of-some (pos_part (max_ℤ (pos 3) item.dwell) * 1000)
      (omega (arith, three_at_least item.dwell))

bar-dwelt :
    (b : Bool) (item : Item) (c : Content) (s : Pip)
    → (dwelt b item c s).bar ≡ (if b then none else some (dwell_ms item))
unfolding show_if put set_timer
bar-dwelt true item c s = refl
bar-dwelt false item c s = dwell-positive item

-- The view at a place of the playlist is the only one that is being fetched, and no timer is to run. When it
-- comes, the corner shows it. It then moves to the next place of the playlist, the first after the last, and
-- again fetches only that view with no timer to run: at the view's own end if the view ends itself, and else
-- when the timer runs that the arrival set to the view's dwell, at least three seconds. The progress bar
-- fills up in the time of that timer, and is empty for a view that ends itself.
pub dwell-IsFetching :
    (items : List Item) (k : ℕ) (c : Content) (s : Pip) (f : IsFetching items k s)
    → k < length items
    → ((answer 0 (page c) s).shown ≡ some f.item)
      × (((answer 0 (page c) s).delay ≡ (if ends_itself f.item c then s.delay else dwell_ms f.item))
          × (((answer 0 (page c) s).bar
                ≡ (if ends_itself f.item c then none else some (dwell_ms f.item)))
              × IsFetching items
                  (after (length items) k)
                  (leave (ends_itself f.item c) s.next_timer (answer 0 (page c) s))))
dwell-IsFetching items k c s f l =
    let a = answer-first f.item [] c s f.built f.pending in
    let b = ends_itself f.item c in
    (
      ap (λ t. t.shown) a ∙ shown-one f.item c b (record s { pending = [] }),
      (
        ap (λ t. t.delay) a ∙ delay-dwelt b f.item c s,
        (
          ap (λ t. t.bar) a ∙ bar-dwelt b f.item c s,
          subst (λ t. IsFetching items (after (length items) k) (leave b s.next_timer t)) (sym a)
              (leave-IsFetching items k b f.item c s f.built f.playlist f.at f.timers l),
        ),
      ),
    )
