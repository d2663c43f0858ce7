-- ===== src/Videos/Loading.antt =====
-- The loading of the player's script, yt.js: `whenReady`, `loadAPI` and the callback that it installs. A
-- callback is a function on the state of the page. YouTube's script defines its players and calls
-- `onYouTubeIframeAPIReady` in one step, after the page has put its tag there.
mod Laws
pub mod Stage
mod Tests
use familyplanner.Prelude.{ℕ, zero, suc, ◌+◌, Bool, true, false, List, [], ◌∷◌, ◌++◌}

pub record Loader (S : Type 0) : Type 0 where
  pub ready : Bool  -- `apiReady`
  pub defined : Bool  -- `YT.Player` is there
  pub tag : Bool  -- the script's element is there
  pub hooks : ℕ  -- the callbacks in `onYouTubeIframeAPIReady`, each of which calls the one before
  pub queue : List (S → S)
  pub page : S

module _ {S : Type 0} where
  pub load_if : Bool → Loader S → Loader S
  load_if true l = record l { ready = true }
  load_if false l = record l { tag = true; hooks = l.hooks + 1 }

  -- `loadAPI()`
  pub load_api : Loader S → Loader S
  load_api l = load_if l.defined l

  pub push : (S → S) → Loader S → Loader S
  push f l = record l { queue = l.queue ++ (f ∷ []) }

  pub ready_if : Bool → (S → S) → Loader S → Loader S
  ready_if true f l = record l { page = f l.page }
  ready_if false f l = push f (load_api l)

  -- `whenReady(f)`
  pub when_ready : (S → S) → Loader S → Loader S
  when_ready f l = ready_if l.ready f l

  pub call_all : List (S → S) → S → S
  call_all [] s = s
  call_all (f ∷ fs) s = call_all fs (f s)

  pub flush : Loader S → Loader S
  flush l = record l { ready = true; page = call_all l.queue l.page; queue = [] }

  -- The installed callback, with `n` of them.
  pub call_hooks : ℕ → Loader S → Loader S
  call_hooks zero l = l
  call_hooks (suc n) l = flush (call_hooks n l)

  pub arrive_if : Bool → Loader S → Loader S
  arrive_if false l = l
  arrive_if true l = call_hooks l.hooks (record l { defined = true })

  -- The script runs, where the page asked for it.
  pub arrive : Loader S → Loader S
  arrive l = arrive_if l.tag l

pub data Event (S : Type 0) : Type 0 where
  asked : (S → S) → Event S
  changed : (S → S) → Event S
  arrived : Event S

module _ {S : Type 0} where
  pub step : Event S → Loader S → Loader S
  step (asked f) l = when_ready f l
  step (changed f) l = record l { page = f l.page }
  step arrived l = arrive l

  pub run : List (Event S) → Loader S → Loader S
  run [] l = l
  run (e ∷ es) l = run es (step e l)

  abbrev pub fresh : S → Loader S
  fresh s = record { ready = false; defined = false; tag = false; hooks = 0; queue = []; page = s }
