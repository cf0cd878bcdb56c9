-- ===== src/Explorer/Upload.antt =====
-- One upload: `FileExplorer.UploadController` of
-- web/src/pages/home-page/file-explorer/Common.tsx, and the job that `_upload` of
-- web/src/pages/home-page/MultiFileExplorer.tsx gives it. The answers of the server and the clicks
-- of the user come as inputs, in any order.
pub mod Guard
pub mod Progress
pub mod Closing
pub mod Ended
mod Tests
use web_ssh_tool.Common.{
  ℕ, ◌+◌, Bool, true, false, not, ◌&&◌, Option, none, some, List, [], ◌∷◌, if◌then◌else◌,
}

-- `UploadController.State`.
pub data UploadState : Type 0 where
  running error completed cancel : UploadState

-- Whether the file is sent as it is or compressed.
pub data Mode : Type 0 where
  plain compressed : Mode

-- What the job asks the server for: to make the placeholder, to upload, to unzip the temporary
-- file into the target, and to unlink the target or the temporary file.
pub data Op : Type 0 where
  write_file upload unzip unlink_target unlink_temp : Op

-- Where the job waits: for the compression and the placeholder, or for one of the two, with the
-- other's answer; for the upload; for the unzipping; for the unlinking of the temporary file; for the
-- release of the placeholder, after which the promise resolves or rejects. Then it is settled.
pub data Place : Type 0 where
  awaiting_both : Place
  awaiting_compression awaiting_creation : Bool → Place
  sending unzipping : Place
  dropping : Bool → Place
  releasing : Bool → Place
  settled : Bool → Place

-- `log` holds the requests, the newest first. `made` and `received` say whether the server has
-- answered that it made the placeholder and that it has the upload.
pub record Job : Type 0 where
  pub mode : Mode
  pub place : Place
  pub state : UploadState
  pub is_closed : Bool
  pub guard : Bool
  pub log : List Op
  pub made : Bool
  pub received : Bool

-- `_upload` up to the first `await`; a plain file needs no compression.
pub start : Mode → Job
start m = record {
  mode = m;
  place = elim m [ plain ↦ awaiting_creation true | compressed ↦ awaiting_both ];
  state = running;
  is_closed = false;
  guard = false;
  log = write_file ∷ [];
  made = false;
  received = false;
}

-- `isCanceled` of the controller, which the job calls `isClosed`.
abbrev pub is_canceled : UploadState → Bool
is_canceled running = false
is_canceled error = true
is_canceled completed = true
is_canceled cancel = true

-- `.then` and `.catch` of the constructor.
abbrev pub settled_state : Bool → UploadState → UploadState
settled_state true running = completed
settled_state false running = error
settled_state b error = error
settled_state b completed = completed
settled_state b cancel = cancel

settle : Bool → Job → Job
settle result j = record j { place = settled result; state = settled_state result j.state }

-- `releaseFileGuard()`.
release : Job → Job
release j = if j.guard then record j { guard = false; log = unlink_target ∷ j.log } else j

-- `await releaseFileGuard()`, then the promise settles.
release_then : Bool → Job → Job
unfolding settle release
release_then result j =
    if j.guard then record (release j) { place = releasing result } else settle result j

ask : Op → Place → Job → Job
ask op next j = record j { place = next; log = op ∷ j.log }

-- After `createPlaceholderFile` and the compression.
prepared : Bool → Bool → Job → Job
unfolding settle release_then ask
prepared compress_ok create_ok j =
    if not create_ok
    then settle false j
    else if is_canceled j.state
    then release_then true j
    else if not compress_ok
    then release_then false j
    else ask upload sending j

-- The answers to what the job waits for; an answer that it does not wait for does not come.
on_compressed : Bool → Place → Job → Job
unfolding prepared
on_compressed ok awaiting_both j = record j { place = awaiting_creation ok }
on_compressed ok (awaiting_compression k) j = prepared ok k j
on_compressed ok _ j = j

on_created : Bool → Place → Job → Job
unfolding prepared
on_created ok awaiting_both j = record j { place = awaiting_compression ok; guard = ok; made = ok }
on_created ok (awaiting_creation c) j = prepared c ok (record j { guard = ok; made = ok })
on_created ok _ j = j

-- The upload was received; a compressed one is unzipped, unless it was cancelled.
sent : Mode → Job → Job
unfolding settle release ask
sent plain j = settle true (record j { guard = false })
sent compressed j =
    if is_canceled j.state
    then ask unlink_temp (releasing true) (release j)
    else ask unzip unzipping j

on_uploaded : Bool → Place → Job → Job
unfolding sent release_then
on_uploaded true sending j = sent j.mode (record j { received = true })
on_uploaded false sending j = release_then false j
on_uploaded ok _ j = j

on_unzipped : Bool → Place → Job → Job
unfolding ask
on_unzipped ok unzipping j = ask unlink_temp (dropping ok) j
on_unzipped ok _ j = j

-- Whatever the unlinking of the temporary file answers.
on_dropped : Place → Job → Job
unfolding settle release_then
on_dropped (dropping true) j = settle true (record j { guard = false })
on_dropped (dropping false) j = release_then false j
on_dropped _ j = j

on_released : Place → Job → Job
unfolding settle
on_released (releasing result) j = settle result j
on_released _ j = j

-- The controller's `cancel`, which calls the job's.
pub cancel_job : Job → Job
unfolding release
cancel_job j = release (record j { state = cancel })

-- `close`.
pub close_job : Job → Job
unfolding cancel_job
close_job j = elim j.state [
  | completed ↦ record j { is_closed = true }
  | _ ↦ record (cancel_job j) { is_closed = true }
]

-- The button of `UploadItem`.
pub click : Job → Job
unfolding cancel_job close_job
click j = elim j.state [ running ↦ cancel_job j | _ ↦ close_job j ]

pub data Input : Type 0 where
  compression_done creation_done upload_done unzip_done : Bool → Input
  drop_done release_done : Input
  clicked closed : Input

pub step : Input → Job → Job
unfolding on_compressed on_created on_uploaded on_unzipped on_dropped on_released click close_job
step (compression_done ok) j = on_compressed ok j.place j
step (creation_done ok) j = on_created ok j.place j
step (upload_done ok) j = on_uploaded ok j.place j
step (unzip_done ok) j = on_unzipped ok j.place j
step drop_done j = on_dropped j.place j
step release_done j = on_released j.place j
step clicked j = click j
step closed j = close_job j

pub run : List Input → Job → Job
run [] j = j
run (i ∷ is) j = run is (step i j)
