-- ===== src/Explorer/Upload/Closing.antt =====
-- The closing of an upload job (`close` of `UploadController`).
use web_ssh_tool.Common.{◌≡◌, ◌≢◌, refl, ◌⊎◌, Bool, true, false, arith}
use web_ssh_tool.Explorer.Upload.{
  Job, running, Mode, plain, compressed, Place, awaiting_both, awaiting_compression,
  awaiting_creation, sending, unzipping, dropping, releasing, start, release, release_then, settle,
  ask, prepared, on_compressed, on_created, sent, on_uploaded, on_unzipped, on_dropped, on_released,
  cancel_job, close_job, click, Input, compression_done, creation_done, upload_done, unzip_done,
  drop_done, release_done, clicked, closed, step,
}

-- It is not closed, or it does not run.
abbrev pub IsStopped : Job → Type 0
IsStopped j = (j.is_closed ≡ false) ⊎ (j.state ≢ running)

pub close_job-closes :
    (j : Job) → ((close_job j).is_closed ≡ true) × ((close_job j).state ≢ running)
unfolding close_job cancel_job release
close_job-closes j = ground arith

pub start_open : (m : Mode) → (start m).is_closed ≡ false
unfolding start
start_open m = refl

open_settle : (b : Bool) (j : Job) → (settle b j).is_closed ≡ j.is_closed
unfolding settle
open_settle b j = refl

open_release_then : (b : Bool) (j : Job) → (release_then b j).is_closed ≡ j.is_closed
unfolding release_then release settle
open_release_then b j = ground arith

open_prepared : (c k : Bool) (j : Job) → (prepared c k j).is_closed ≡ j.is_closed
unfolding prepared settle ask
open_prepared c k j = ground (arith, open_release_then true j, open_release_then false j)

open_compressed : (ok : Bool) (p : Place) (j : Job) → (on_compressed ok p j).is_closed ≡ j.is_closed
unfolding on_compressed
open_compressed ok awaiting_both j = refl
open_compressed ok (awaiting_compression k) j = open_prepared ok k j
open_compressed ok p j = refl

open_created : (ok : Bool) (p : Place) (j : Job) → (on_created ok p j).is_closed ≡ j.is_closed
unfolding on_created
open_created ok awaiting_both j = refl
open_created ok (awaiting_creation c) j = open_prepared c ok (record j { guard = ok; made = ok })
open_created ok p j = refl

open_sent : (m : Mode) (j : Job) → (sent m j).is_closed ≡ j.is_closed
unfolding sent settle release ask
open_sent plain j = refl
open_sent compressed j = ground arith

open_uploaded : (ok : Bool) (p : Place) (j : Job) → (on_uploaded ok p j).is_closed ≡ j.is_closed
unfolding on_uploaded
open_uploaded true sending j = open_sent j.mode (record j { received = true })
open_uploaded false sending j = open_release_then false j
open_uploaded true p j = refl
open_uploaded false p j = refl

open_unzipped : (ok : Bool) (p : Place) (j : Job) → (on_unzipped ok p j).is_closed ≡ j.is_closed
unfolding on_unzipped ask
open_unzipped ok unzipping j = refl
open_unzipped ok p j = refl

open_dropped : (p : Place) (j : Job) → (on_dropped p j).is_closed ≡ j.is_closed
unfolding on_dropped settle
open_dropped (dropping true) j = refl
open_dropped (dropping false) j = open_release_then false j
open_dropped p j = refl

open_released : (p : Place) (j : Job) → (on_released p j).is_closed ≡ j.is_closed
unfolding on_released settle
open_released (releasing b) j = refl
open_released p j = refl

open_cancelled : (j : Job) → (cancel_job j).is_closed ≡ j.is_closed
unfolding cancel_job release
open_cancelled j = ground arith

-- From a job that is not closed every input leads to one that is not closed or does not run.
pub step-IsStopped : (i : Input) (j : Job) → j.is_closed ≡ false → IsStopped (step i j)
unfolding step
step-IsStopped (compression_done ok) j h = ground (arith, open_compressed ok j.place j)
step-IsStopped (creation_done ok) j h = ground (arith, open_created ok j.place j)
step-IsStopped (upload_done ok) j h = ground (arith, open_uploaded ok j.place j)
step-IsStopped (unzip_done ok) j h = ground (arith, open_unzipped ok j.place j)
step-IsStopped drop_done j h = ground (arith, open_dropped j.place j)
step-IsStopped release_done j h = ground (arith, open_released j.place j)
step-IsStopped clicked j h = unfold click in ground (arith, open_cancelled j, close_job-closes j)
step-IsStopped closed j h = ground (arith, close_job-closes j)
