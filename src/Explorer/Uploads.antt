-- ===== src/Explorer/Uploads.antt =====
-- The list of upload jobs of `MultiFileExplorer`, web/src/pages/home-page/MultiFileExplorer.tsx: the
-- jobs that `_upload` adds, the listener that removes closed ones, "Upload local files", "clear all"
-- and the unmounting.
pub mod Removal
pub mod Clicks
mod Tests
use web_ssh_tool.Common.{
  ℕ, ◌+◌, Bool, true, false, not, Option, none, some, List, [], ◌∷◌, ◌++◌, map, any, ◌&&◌, keep,
  length, ◌==◌, if◌then◌else◌,
}
use web_ssh_tool.Common.Text.{Text}
use web_ssh_tool.Explorer.Upload as Upload
use web_ssh_tool.Explorer.Upload.{Job, Mode, start, close_job}

-- A job with its id, its file's name and its destination.
pub record Item : Type 0 where
  pub id : ℕ
  pub name : Text
  pub dest : List Text
  pub job : Job

-- `_uploadItems`, `uploadManagementOpen`, `uploadCompress` of the config and `_mounted`; `removed`
-- are the jobs that were taken off the list, and `next` the id of the next one.
pub record Manager : Type 0 where
  pub items : List Item
  pub management_open : Bool
  pub upload_compress : Bool
  pub is_mounted : Bool
  pub removed : List Item
  pub next : ℕ

-- The constructor.
unfoldable pub create : Manager
create = record {
  items = [];
  management_open = false;
  upload_compress = false;
  is_mounted = true;
  removed = [];
  next = 0;
}

abbrev pub is_closed : Item → Bool
is_closed i = i.job.is_closed

-- `_upload`.
unfoldable pub upload : Text → List Text → Manager → Manager
upload name dest m =
    let item : Item = record {
      id = m.next;
      name = name;
      dest = dest;
      job = start (if m.upload_compress then Upload.compressed else Upload.plain);
    } in
    record m { items = m.items ++ item ∷ []; management_open = true; next = m.next + 1 }

-- The listener of `change` of a job that is closed: all that are closed are filtered out.
unfoldable pub on_closed : Manager → Manager
on_closed m =
    if m.is_mounted
    then record m {
      items = keep (λ i. not (is_closed i)) m.items;
      removed = keep is_closed m.items ++ m.removed;
    }
    else m

-- Something happens to a job of the list, and its `change` is dispatched.
abbrev pub advance : ℕ → Upload.Input → Item → Item
advance id input i = if i.id == id then record i { job = Upload.step input i.job } else i

unfoldable pub on_job : ℕ → Upload.Input → Manager → Manager
unfolding on_closed
on_job id input m =
    let items = map (advance id input) m.items in
    let next = record m { items = items } in
    if any (λ i. i.id == id && is_closed i) items then on_closed next else next

-- The input of files; `path` is that of the controller's state.
unfoldable pub upload_all : Option Text → List Text → Manager → Manager
upload_all none names m = m
upload_all (some path) [] m = m
upload_all (some path) (name ∷ names) m = upload_all (some path) names (upload name (path ∷ []) m)

abbrev pub closed_item : Item → Item
closed_item i = record i { job = close_job i.job }

-- "clear all": the list is emptied first, then each job is closed.
unfoldable pub clear_all : Manager → Manager
clear_all m = record m { items = []; removed = map closed_item m.items ++ m.removed }

-- `componentWillUnmount`; the listeners no longer change the list.
unfoldable pub unmount : Manager → Manager
unmount m = record m { is_mounted = false; items = map closed_item m.items }

pub data Event : Type 0 where
  picked : Option Text → List Text → Event
  happened : ℕ → Upload.Input → Event
  cleared toggled_compress : Event

unfoldable pub step : Event → Manager → Manager
unfolding upload_all on_job clear_all
step (picked path names) m = upload_all path names m
step (happened id input) m = on_job id input m
step cleared m = clear_all m
step toggled_compress m = record m { upload_compress = not m.upload_compress }

unfoldable pub run : List Event → Manager → Manager
run [] m = m
run (e ∷ es) m = run es (step e m)

-- What a row of the list shows of its job, by `upload.loaded` and `upload.total` where they are known.
pub data Graphic : Type 0 where
  progress : ℕ → ℕ → Graphic
  initialization error_icon cancel_icon checked_icon : Graphic

unfoldable pub graphic : Job → Option (ℕ × ℕ) → Graphic
graphic j upload = elim j.state [
  | Upload.running ↦ elim upload [
    | none ↦ initialization
    | some (loaded, total) ↦ progress loaded total
  ]
  | Upload.error ↦ error_icon
  | Upload.cancel ↦ cancel_icon
  | Upload.completed ↦ checked_icon
]
