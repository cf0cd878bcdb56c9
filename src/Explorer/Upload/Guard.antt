-- ===== src/Explorer/Upload/Guard.antt =====
-- The placeholder and the temporary file of an upload (`_upload` of MultiFileExplorer.tsx).
use web_ssh_tool.Common.{ℕ, ◌+◌, ◌≤◌, ◌≡◌, ◌≢◌, refl, Bool, true, false, List, [], ◌∷◌, ◌⊎◌, arith}
use web_ssh_tool.Explorer.Upload.{
  running, completed, cancel, Mode, plain, compressed, Op, unlink_target, unlink_temp, Place,
  awaiting_both, awaiting_compression, awaiting_creation, sending, unzipping, dropping, releasing,
  settled, Job, start, Input, compression_done, creation_done, upload_done, unzip_done, drop_done,
  release_done, clicked, closed, step, run, prepared, on_compressed, on_created, on_uploaded,
  on_unzipped, on_dropped, on_released, cancel_job, close_job, click,
}

abbrev is_unlink_target : Op → ℕ
is_unlink_target unlink_target = 1
is_unlink_target _ = 0

abbrev is_unlink_temp : Op → ℕ
is_unlink_temp unlink_temp = 1
is_unlink_temp _ = 0

-- How often the target, and the temporary file, were unlinked.
abbrev pub target_unlinks : List Op → ℕ
target_unlinks [] = 0
target_unlinks (o ∷ log) = is_unlink_target o + target_unlinks log

abbrev pub temp_unlinks : List Op → ℕ
temp_unlinks [] = 0
temp_unlinks (o ∷ log) = is_unlink_temp o + temp_unlinks log

abbrev pub bit : Bool → ℕ
bit true = 1
bit false = 0

-- What holds of the temporary file and of the guard at each place.
abbrev pub temp_due : Job → ℕ
temp_due j = elim j.mode [ plain ↦ 0 | compressed ↦ bit j.received ]

abbrev AtPlace : Place → Job → Type 0
AtPlace awaiting_both j = (j.received ≡ false) × (j.made ≡ false) × (temp_unlinks j.log ≡ 0)
AtPlace (awaiting_creation c) j = (j.received ≡ false) × (j.made ≡ false) × (temp_unlinks j.log ≡ 0)
AtPlace (awaiting_compression k) j = (j.received ≡ false) × (j.made ≡ k) × (temp_unlinks j.log ≡ 0)
AtPlace sending j = (j.received ≡ false) × (j.made ≡ true) × (temp_unlinks j.log ≡ 0)
AtPlace unzipping j =
    (j.received ≡ true) × (j.made ≡ true) × (j.mode ≡ compressed) × (temp_unlinks j.log ≡ 0)
AtPlace (dropping ok) j =
    (j.received ≡ true) × (j.made ≡ true) × (j.mode ≡ compressed) × (temp_unlinks j.log ≡ 1)
AtPlace (releasing ok) j =
    (j.guard ≡ false)
    × (temp_unlinks j.log ≡ temp_due j)
    × (ok ≡ true → j.state ≢ running)
    × (j.state ≢ completed)
    × (j.made ≡ true → target_unlinks j.log ≡ 1)
AtPlace (settled ok) j =
    (j.guard ≡ false)
    × (temp_unlinks j.log ≡ temp_due j)
    × (j.state ≢ running)
    × (j.made ≡ true → ok ≡ false → target_unlinks j.log ≡ 1)
    × (j.state ≡ completed → (ok ≡ true) × (j.received ≡ true) × (target_unlinks j.log ≡ 0))

abbrev IsEarly : Place → Type 0
IsEarly (settled ok) = ⊥
IsEarly (releasing ok) = ⊥
IsEarly _ = Unit

record Inv (j : Job) : Type 0 where
  at : AtPlace j.place j
  once : target_unlinks j.log + bit j.guard ≤ 1
  none_made : j.made ≡ false → target_unlinks j.log + bit j.guard ≡ 0
  held : IsEarly j.place → j.made ≡ true → target_unlinks j.log + bit j.guard ≡ 1
  untouched : IsEarly j.place → j.state ≡ running → target_unlinks j.log ≡ 0
  early : IsEarly j.place → (j.state ≡ running) ⊎ (j.state ≡ cancel)

start-Inv : (m : Mode) → Inv (start m)
unfolding start
start-Inv plain = ground arith
start-Inv compressed = ground arith

prepared-Inv :
    (c k : Bool) (j : Job)
    → Inv (record j { place = awaiting_compression k })
    → Inv (prepared c k j)
unfolding prepared
prepared-Inv true true j v = ground arith
prepared-Inv true false j v = ground arith
prepared-Inv false true j v = ground arith
prepared-Inv false false j v = ground arith

compressed-Inv :
    (ok : Bool) (p : Place) (j : Job) → j.place ≡ p → Inv j → Inv (on_compressed ok p j)
unfolding on_compressed
compressed-Inv ok awaiting_both j e v = ground arith
compressed-Inv ok (awaiting_compression k) j e v = prepared-Inv ok k j (ground arith)
compressed-Inv ok p j e v = v

created-Inv : (ok : Bool) (p : Place) (j : Job) → j.place ≡ p → Inv j → Inv (on_created ok p j)
unfolding on_created
created-Inv ok awaiting_both j e v = ground arith
created-Inv ok (awaiting_creation c) j e v =
    prepared-Inv c ok (record j { guard = ok; made = ok }) (ground arith)
created-Inv ok p j e v = v

uploaded-Inv : (ok : Bool) (j : Job) → Inv j → Inv (on_uploaded ok j.place j)
unfolding on_uploaded
uploaded-Inv ok j v = ground arith

unzipped-Inv : (ok : Bool) (j : Job) → Inv j → Inv (on_unzipped ok j.place j)
unfolding on_unzipped
unzipped-Inv ok j v = ground arith

dropped-Inv : (j : Job) → Inv j → Inv (on_dropped j.place j)
unfolding on_dropped
dropped-Inv j v = ground arith

released-Inv : (j : Job) → Inv j → Inv (on_released j.place j)
unfolding on_released
released-Inv j v = ground arith

cancel-Inv : (j : Job) → Inv j → j.state ≢ completed → Inv (cancel_job j)
unfolding cancel_job
cancel-Inv j v h = ground arith

close-Inv : (j : Job) → Inv j → Inv (close_job j)
unfolding close_job
close-Inv j v = ground arith

click-Inv : (j : Job) → Inv j → Inv (click j)
unfolding click
click-Inv j v = ground arith

step-Inv : (i : Input) (j : Job) → Inv j → Inv (step i j)
unfolding step
step-Inv (compression_done ok) j v = compressed-Inv ok j.place j refl v
step-Inv (creation_done ok) j v = created-Inv ok j.place j refl v
step-Inv (upload_done ok) j v = uploaded-Inv ok j v
step-Inv (unzip_done ok) j v = unzipped-Inv ok j v
step-Inv drop_done j v = dropped-Inv j v
step-Inv release_done j v = released-Inv j v
step-Inv clicked j v = click-Inv j v
step-Inv closed j v = close-Inv j v

run-Inv : (is : List Input) (j : Job) → Inv j → Inv (run is j)
unfolding run
run-Inv [] j v = v
run-Inv (i ∷ is) j v = run-Inv is (step i j) (step-Inv i j v)

-- What a job that is over has done with the two files that it made on the server.
pub record IsCleanedUp (ok : Bool) (j : Job) : Type 0 where
  pub guard : j.guard ≡ false
  pub state : j.state ≢ running
  pub once : target_unlinks j.log ≤ 1
  pub unmade : (j.made ≡ true) ⊎ (target_unlinks j.log ≡ 0)
  pub failed : (j.made ≡ false) ⊎ ((ok ≡ true) ⊎ (target_unlinks j.log ≡ 1))
  pub completed :
      (j.state ≢ completed) ⊎ ((ok ≡ true) × (j.received ≡ true) × (target_unlinks j.log ≡ 0))
  pub temp : temp_unlinks j.log ≡ temp_due j

cleaned : (ok : Bool) (j : Job) → j.place ≡ settled ok → Inv j → IsCleanedUp ok j
cleaned ok j e v = ground arith

-- However the answers of the server and the clicks of the user fall, a job that is settled holds
-- no guard and is not running; the target was unlinked at most once, and not at all if the
-- placeholder was never made; it was unlinked if the placeholder was made and the job failed; it
-- was not if the job is shown as completed, and then the server has the upload; and the temporary
-- file of a compressed upload was unlinked once, if the server received it.
pub settled-IsCleanedUp :
    (m : Mode) (is : List Input) (ok : Bool)
    → (run is (start m)).place ≡ settled ok
    → IsCleanedUp ok (run is (start m))
settled-IsCleanedUp m is ok e = cleaned ok (run is (start m)) e (run-Inv is (start m) (start-Inv m))
