-- ===== src/Explorer/Upload/Ended.antt =====
-- A job that does not run any more never runs again (`UploadController`).
use web_ssh_tool.Common.{◌≡◌, Bool, true, false, arith}
use web_ssh_tool.Explorer.Upload.{
  Job, UploadState, running, error, completed, cancel, is_canceled, settled_state, Mode, plain,
  compressed, Place, awaiting_both, awaiting_compression, awaiting_creation, sending, unzipping,
  dropping, releasing, release, release_then, settle, ask, prepared, on_compressed, on_created,
  sent, on_uploaded, on_unzipped, on_dropped, on_released, cancel_job, close_job, click, Input,
  compression_done, creation_done, upload_done, unzip_done, drop_done, release_done, clicked,
  closed, step,
}

abbrev pub HasEnded : Job → Type 0
HasEnded j = is_canceled j.state ≡ true

kept_state :
    (b : Bool) (s : UploadState) → is_canceled s ≡ true → is_canceled (settled_state b s) ≡ true
kept_state b running h = cc
kept_state b error h = h
kept_state b completed h = h
kept_state b cancel h = h

settle-HasEnded : (b : Bool) (j : Job) → HasEnded j → HasEnded (settle b j)
unfolding settle
settle-HasEnded b j h = kept_state b j.state h

release_then-HasEnded : (b : Bool) (j : Job) → HasEnded j → HasEnded (release_then b j)
unfolding release_then release
release_then-HasEnded b j h = ground (arith, settle-HasEnded b j h)

prepared-HasEnded : (c k : Bool) (j : Job) → HasEnded j → HasEnded (prepared c k j)
unfolding prepared ask
prepared-HasEnded c k j h = ground (
  arith,
  settle-HasEnded false j h,
  release_then-HasEnded true j h,
  release_then-HasEnded false j h,
)

compressed-HasEnded :
    (ok : Bool) (p : Place) (j : Job) → HasEnded j → HasEnded (on_compressed ok p j)
unfolding on_compressed
compressed-HasEnded ok awaiting_both j h = h
compressed-HasEnded ok (awaiting_compression k) j h = prepared-HasEnded ok k j h
compressed-HasEnded ok p j h = h

created-HasEnded : (ok : Bool) (p : Place) (j : Job) → HasEnded j → HasEnded (on_created ok p j)
unfolding on_created
created-HasEnded ok awaiting_both j h = h
created-HasEnded ok (awaiting_creation c) j h =
    prepared-HasEnded c ok (record j { guard = ok; made = ok }) h
created-HasEnded ok p j h = h

sent-HasEnded : (m : Mode) (j : Job) → HasEnded j → HasEnded (sent m j)
unfolding sent release ask
sent-HasEnded plain j h = settle-HasEnded true (record j { guard = false }) h
sent-HasEnded compressed j h = ground arith

uploaded-HasEnded : (ok : Bool) (p : Place) (j : Job) → HasEnded j → HasEnded (on_uploaded ok p j)
unfolding on_uploaded
uploaded-HasEnded true sending j h = sent-HasEnded j.mode (record j { received = true }) h
uploaded-HasEnded false sending j h = release_then-HasEnded false j h
uploaded-HasEnded true p j h = h
uploaded-HasEnded false p j h = h

unzipped-HasEnded : (ok : Bool) (p : Place) (j : Job) → HasEnded j → HasEnded (on_unzipped ok p j)
unfolding on_unzipped ask
unzipped-HasEnded ok unzipping j h = h
unzipped-HasEnded ok p j h = h

dropped-HasEnded : (p : Place) (j : Job) → HasEnded j → HasEnded (on_dropped p j)
unfolding on_dropped
dropped-HasEnded (dropping true) j h = settle-HasEnded true (record j { guard = false }) h
dropped-HasEnded (dropping false) j h = release_then-HasEnded false j h
dropped-HasEnded p j h = h

released-HasEnded : (p : Place) (j : Job) → HasEnded j → HasEnded (on_released p j)
unfolding on_released
released-HasEnded (releasing b) j h = settle-HasEnded b j h
released-HasEnded p j h = h

cancel_job-HasEnded : (j : Job) → HasEnded (cancel_job j)
unfolding cancel_job release
cancel_job-HasEnded j = ground arith

close_job-HasEnded : (j : Job) → HasEnded (close_job j)
unfolding close_job cancel_job release
close_job-HasEnded j = ground arith

click-HasEnded : (j : Job) → HasEnded (click j)
unfolding click
click-HasEnded j = ground (arith, cancel_job-HasEnded j, close_job-HasEnded j)

pub clicked-HasEnded : (j : Job) → HasEnded (step clicked j)
unfolding step
clicked-HasEnded j = click-HasEnded j

-- A click on the button of a job that has ended closes it.
pub clicked_closes : (j : Job) → HasEnded j → (step clicked j).is_closed ≡ true
unfolding step click close_job
clicked_closes j h = ground arith

pub step-HasEnded : (i : Input) (j : Job) → HasEnded j → HasEnded (step i j)
unfolding step
step-HasEnded (compression_done ok) j h = compressed-HasEnded ok j.place j h
step-HasEnded (creation_done ok) j h = created-HasEnded ok j.place j h
step-HasEnded (upload_done ok) j h = uploaded-HasEnded ok j.place j h
step-HasEnded (unzip_done ok) j h = unzipped-HasEnded ok j.place j h
step-HasEnded drop_done j h = dropped-HasEnded j.place j h
step-HasEnded release_done j h = released-HasEnded j.place j h
step-HasEnded clicked j h = click-HasEnded j
step-HasEnded closed j h = close_job-HasEnded j
