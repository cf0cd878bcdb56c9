-- ===== src/Explorer/Uploads/Removal.antt =====
-- The jobs on the list of MultiFileExplorer.tsx and those taken off it.
use web_ssh_tool.Common.{
  ℕ, ◌+◌, ◌≡◌, ◌≢◌, refl, inl, inr, true, false, not, Option, none, some, List, [], ◌∷◌, map, any,
  ◌&&◌, keep, length, All, All-append, arith, ◌==◌, Bool-cases, length-append,
}
use web_ssh_tool.Common.Text.{Text}
use web_ssh_tool.Explorer.Upload as Upload
use web_ssh_tool.Explorer.Upload.{Job, start, close_job}
use web_ssh_tool.Explorer.Uploads.{
  Item, Manager, create, is_closed, upload, on_closed, advance, on_job, upload_all, closed_item,
  Event, picked, happened, cleared, toggled_compress, step, run,
}
use web_ssh_tool.Explorer.Upload.Closing.{IsStopped, start_open, step-IsStopped, close_job-closes}

abbrev pub IsOpen : Item → Type 0
IsOpen i = is_closed i ≡ false

-- Taken off the list: closed, and not running.
abbrev pub IsGone : Item → Type 0
IsGone i = (is_closed i ≡ true) × (i.job.state ≢ Upload.running)

-- While the explorer is mounted, the list holds jobs that are not closed, those taken off it do not
-- run, and none is lost.
pub record IsKept (m : Manager) : Type 0 where
  pub mounted : m.is_mounted ≡ true
  pub open_ : All IsOpen m.items
  pub gone : All IsGone m.removed
  pub number : length m.items + length m.removed ≡ m.next

advanced :
    (id : ℕ) (input : Upload.Input) (items : List Item)
    → All IsOpen items
    → All (λ i. IsStopped i.job) (map (advance id input) items)
advanced id input [] h = tt
advanced id input (i ∷ is) (h, hs) =
    (ground (arith, step-IsStopped input i.job h), advanced id input is hs)

kept-IsOpen : (items : List Item) → All IsOpen (keep (λ i. not (is_closed i)) items)
kept-IsOpen [] = tt
kept-IsOpen (i ∷ is) = ground (arith, kept-IsOpen is)

kept-IsGone :
    (items : List Item) → All (λ i. IsStopped i.job) items → All IsGone (keep is_closed items)
kept-IsGone [] h = tt
kept-IsGone (i ∷ is) (h, hs) = ground (arith, kept-IsGone is hs)

kept_number :
    (items : List Item)
    → length (keep (λ i. not (is_closed i)) items) + length (keep is_closed items) ≡ length items
kept_number [] = omega arith
kept_number (i ∷ is) = ground (arith, kept_number is)

length-map : (f : Item → Item) (items : List Item) → length (map f items) ≡ length items
length-map f [] = refl
length-map f (i ∷ is) = omega (arith, length-map f is)

-- Where no job with the id is closed, none is.
none_closed :
    (id : ℕ) (input : Upload.Input) (items : List Item)
    → All IsOpen items
    → any (λ i. i.id == id && is_closed i) (map (advance id input) items) ≡ false
    → All IsOpen (map (advance id input) items)
none_closed id input [] h k = tt
none_closed id input (i ∷ is) (h, hs) k = ground (arith, none_closed id input is hs)

All-IsGone : (items : List Item) → All IsGone (map closed_item items)
All-IsGone [] = tt
All-IsGone (i ∷ is) = (close_job-closes i.job, All-IsGone is)

upload-IsKept :
    (name : Text) (dest : List Text) (m : Manager) → IsKept m → IsKept (upload name dest m)
unfolding upload
upload-IsKept name dest m k = record {
  mounted = k.mounted;
  open_ = All-append IsOpen m.items _ k.open_ (start_open _, tt);
  gone = k.gone;
  number = omega (arith, k.number, length-append m.items (_ ∷ []));
}

upload_all-IsKept :
    (path : Option Text) (names : List Text) (m : Manager)
    → IsKept m
    → IsKept (upload_all path names m)
unfolding upload_all
upload_all-IsKept none names m k = k
upload_all-IsKept (some path) [] m k = k
upload_all-IsKept (some path) (name ∷ names) m k =
    upload_all-IsKept (some path) names (upload name (path ∷ []) m)
      (upload-IsKept name (path ∷ []) m k)

closed-IsKept :
    (m : Manager)
    → m.is_mounted ≡ true
    → All (λ i. IsStopped i.job) m.items
    → All IsGone m.removed
    → length m.items + length m.removed ≡ m.next
    → IsKept (on_closed m)
unfolding on_closed
closed-IsKept m h s g n = rw h (record {
  mounted = refl;
  open_ = kept-IsOpen m.items;
  gone = All-append IsGone (keep is_closed m.items) m.removed (kept-IsGone m.items s) g;
  number = omega (arith, n, kept_number m.items, length-append (keep is_closed m.items) m.removed);
})

happened-IsKept :
    (id : ℕ) (input : Upload.Input) (m : Manager) → IsKept m → IsKept (on_job id input m)
unfolding on_job
happened-IsKept id input m k =
    let items = map (advance id input) m.items in
    let number : length items + length m.removed ≡ m.next =
      omega (arith, k.number, length-map (advance id input) m.items) in
    elim (Bool-cases (any (λ i. i.id == id && is_closed i) items)) [
      | inl e ↦ rw e (
          closed-IsKept (record m { items = items }) k.mounted (advanced id input m.items k.open_)
            k.gone number)
      | inr e ↦ rw e (record {
        mounted = k.mounted;
        open_ = none_closed id input m.items k.open_ e;
        gone = k.gone;
        number = number;
      })
    ]

pub step-IsKept : (e : Event) (m : Manager) → IsKept m → IsKept (step e m)
unfolding step
step-IsKept (picked path names) m k = upload_all-IsKept path names m k
step-IsKept (happened id input) m k = happened-IsKept id input m k
step-IsKept cleared m k = record {
  mounted = k.mounted;
  open_ = tt;
  gone = All-append IsGone (map closed_item m.items) m.removed (All-IsGone m.items) k.gone;
  number = omega (
    arith,
    k.number,
    length-map closed_item m.items,
    length-append (map closed_item m.items) m.removed,
  );
}
step-IsKept toggled_compress m k = record {
  mounted = k.mounted;
  open_ = k.open_;
  gone = k.gone;
  number = k.number;
}

pub run-IsKept : (es : List Event) (m : Manager) → IsKept m → IsKept (run es m)
unfolding run
run-IsKept [] m k = k
run-IsKept (e ∷ es) m k = run-IsKept es (step e m) (step-IsKept e m k)

-- While the explorer is mounted, whatever files are picked, whatever happens to the jobs and
-- however often the list is cleared, the list holds only jobs that are not closed, a job that was
-- taken off it is closed and does not run, and every job that was added is in one of the two.
pub manager-IsKept : (es : List Event) → IsKept (run es create)
unfolding create
manager-IsKept es =
    run-IsKept es create (record { mounted = refl; open_ = tt; gone = tt; number = refl })
