-- ===== src/Explorer/Rows/Current.antt =====
-- What the rows of a listing show (DirectoryPreview.tsx).
use web_ssh_tool.Common.{
  ℕ, zero, suc, ◌≡◌, refl, Bool, true, false, not, Option, none, some, List, [], ◌∷◌, map, All,
  All-keep, length, ltb, get_elem?, arith, ◌==◌, if◌then◌else◌,
}
use web_ssh_tool.Explorer.Types.{Entry}
use web_ssh_tool.Explorer.Rows.{
  Rows, create, build, item_count, on_change, did_update, Event, updated, row_mounted,
  row_unmounted, step, run,
}

-- Each row has drawn the entry that is at its index in the list.
abbrev pub IsCurrent : Rows → Type 0
IsCurrent r = All (λ d. d.1 ≡ get_elem? r.file_list d.0) r.drawn

get_elem_beyond : (xs : List Entry) (i : ℕ) → ltb i (length xs) ≡ false → none ≡ get_elem? xs i
get_elem_beyond [] i h = refl
get_elem_beyond (x ∷ xs) zero h = ground (arith, h)
get_elem_beyond (x ∷ xs) (suc i) h = get_elem_beyond xs i (ground (arith, h))

build_if :
    (b : Bool) (xs : List Entry) (i : ℕ)
    → ltb i (length xs) ≡ b
    → (if b then get_elem? xs i else none) ≡ get_elem? xs i
build_if true xs i h = refl
build_if false xs i h = get_elem_beyond xs i h

build_lem : (xs : List Entry) (i : ℕ) → build xs i ≡ get_elem? xs i
unfolding build
build_lem xs i = build_if (ltb i (length xs)) xs i refl

drawn_again :
    (xs : List Entry) (ds : List (ℕ × Option Entry))
    → All (λ (d : ℕ × Option Entry). d.1 ≡ get_elem? xs d.0) (map (λ d. (d.0, build xs d.0)) ds)
drawn_again xs [] = tt
drawn_again xs (d ∷ ds) = (build_lem xs d.0, drawn_again xs ds)

if-IsCurrent :
    (b : Bool) (r r' : Rows) → IsCurrent r → IsCurrent r' → IsCurrent (if b then r else r')
if-IsCurrent true r r' h h' = h
if-IsCurrent false r r' h h' = h'

step-IsCurrent : (e : Event) (r : Rows) → IsCurrent r → IsCurrent (step e r)
unfolding step did_update on_change
step-IsCurrent (updated other none) r h = if-IsCurrent other _ r (drawn_again r.file_list r.drawn) h
step-IsCurrent (updated other (some xs)) r h = drawn_again xs r.drawn
step-IsCurrent (row_mounted i) r h =
    if-IsCurrent (ltb i (item_count r)) _ r (build_lem r.file_list i, h) h
step-IsCurrent (row_unmounted i) r h =
    All-keep (λ d. d.1 ≡ get_elem? r.file_list d.0) (λ d. not (d.0 == i)) r.drawn h

run_from-IsCurrent : (es : List Event) (r : Rows) → IsCurrent r → IsCurrent (run es r)
unfolding run
run_from-IsCurrent [] r h = h
run_from-IsCurrent (e ∷ es) r h = run_from-IsCurrent es (step e r) (step-IsCurrent e r h)

-- Whatever lists the component is given and however it scrolls, each row that is mounted has drawn
-- the entry that stands at its place in the newest list, and nothing behind the end of the list.
pub run-IsCurrent : (xs : List Entry) (es : List Event) → IsCurrent (run es (create xs))
unfolding create
run-IsCurrent xs es = run_from-IsCurrent es (create xs) tt
