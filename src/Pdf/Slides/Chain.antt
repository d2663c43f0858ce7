-- ===== src/Pdf/Slides/Chain.antt =====
-- The chain of promises of `render`, pdf-widget.js: the pages are fetched and drawn one after another, each
-- on a canvas of a fragment that replaces the content when the whole chain is kept.
mod Settled
mod Tests
use familyplanner.Prelude.{ℕ, Bool, true, false, some, List, [], ◌∷◌, ◌++◌}
use familyplanner.Pdf.Slides.{Pdf, render, page_nums, finish, give_up}

-- The promise that the chain waits for, with the pages that follow and those of the fragment.
pub data Chain : Type 0 where
  getting : ℕ → List ℕ → List ℕ → Chain  -- `getPage(n)`
  painting : List ℕ → List ℕ → Chain  -- `page.render(…)`
  painted : List ℕ → Chain  -- all are kept
  broken : Chain  -- one was refused

-- The link of the next page.
pub link : List ℕ → List ℕ → Chain
link [] frag = painted frag
link (n ∷ ns) frag = getting n ns frag

-- The promise that is waited for is kept or refused.
pub answer : Bool → Chain → Chain
answer true (getting n ns frag) = painting ns (frag ++ (n ∷ []))
answer true (painting ns frag) = link ns frag
answer false (getting n ns frag) = broken
answer false (painting ns frag) = broken
answer b (painted frag) = painted frag
answer b broken = broken

pub answers : List Bool → Chain → Chain
answers [] c = c
answers (b ∷ bs) c = answers bs (answer b c)

-- The last `then` and the `catch`, where the content then overflows a height of `client` by `over`.
pub settle : ℕ → ℕ → Chain → Pdf → Pdf
settle over client (painted frag) s = finish over client (some frag) s
settle over client broken s = give_up s
settle over client (getting n ns frag) s = s
settle over client (painting ns frag) s = s

-- `render(el)` of a loaded widget at rest, and what its promises do after it.
pub render_pages : ℕ → ℕ → List Bool → Pdf → Pdf
render_pages over client bs s = settle over client (answers bs (link (page_nums s) [])) (render s)
