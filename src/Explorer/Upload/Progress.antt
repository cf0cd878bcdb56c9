-- ===== src/Explorer/Upload/Progress.antt =====
-- The places of an upload job and the answers that it waits for.
use web_ssh_tool.Common.{ℕ, ◌<◌, ◌≤◌, ◌≡◌, refl, Bool, true, false, ◌⊎◌, inl, inr, arith}
use web_ssh_tool.Explorer.Upload.{
  Place, awaiting_both, awaiting_compression, awaiting_creation, sending, unzipping, dropping,
  releasing, settled, Job, Input, compression_done, creation_done, upload_done, unzip_done,
  drop_done, release_done, clicked, closed, click, close_job, step, prepared, on_compressed,
  on_created, on_uploaded, on_unzipped, on_dropped, on_released,
}

-- How many answers can still come, at most.
abbrev pub rank : Place → ℕ
rank awaiting_both = 6
rank (awaiting_compression k) = 5
rank (awaiting_creation c) = 5
rank sending = 4
rank unzipping = 3
rank (dropping ok) = 2
rank (releasing ok) = 1
rank (settled ok) = 0

-- The answer is one that the job waits for.
abbrev pub awaited : Input → Place → Bool
awaited (compression_done ok) awaiting_both = true
awaited (compression_done ok) (awaiting_compression k) = true
awaited (creation_done ok) awaiting_both = true
awaited (creation_done ok) (awaiting_creation c) = true
awaited (upload_done ok) sending = true
awaited (unzip_done ok) unzipping = true
awaited drop_done (dropping ok) = true
awaited release_done (releasing ok) = true
awaited i p = false

rank-prepared : (c k : Bool) (j : Job) → rank (prepared c k j).place < 5
unfolding prepared
rank-prepared c k j = ground arith

-- An awaited answer lowers the rank; any other input leaves the place as it is.
abbrev pub Moves : Bool → Place → Place → Type 0
Moves true p q = rank q < rank p
Moves false p q = q ≡ p

compressed-Moves :
    (ok : Bool) (p : Place) (j : Job)
    → j.place ≡ p
    → Moves (awaited (compression_done ok) p) p (on_compressed ok p j).place
unfolding on_compressed
compressed-Moves ok awaiting_both j e = omega arith
compressed-Moves ok (awaiting_compression k) j e = rank-prepared ok k j
compressed-Moves ok p j e = e

created-Moves :
    (ok : Bool) (p : Place) (j : Job)
    → j.place ≡ p
    → Moves (awaited (creation_done ok) p) p (on_created ok p j).place
unfolding on_created
created-Moves ok awaiting_both j e = omega arith
created-Moves ok (awaiting_creation c) j e = rank-prepared c ok (record j { guard = ok; made = ok })
created-Moves ok p j e = e

uploaded-Moves :
    (ok : Bool) (p : Place) (j : Job)
    → j.place ≡ p
    → Moves (awaited (upload_done ok) p) p (on_uploaded ok p j).place
unfolding on_uploaded
uploaded-Moves true sending j e = ground arith
uploaded-Moves false sending j e = ground arith
uploaded-Moves true p j e = e
uploaded-Moves false p j e = e

unzipped-Moves :
    (ok : Bool) (p : Place) (j : Job)
    → j.place ≡ p
    → Moves (awaited (unzip_done ok) p) p (on_unzipped ok p j).place
unfolding on_unzipped
unzipped-Moves ok unzipping j e = omega arith
unzipped-Moves ok p j e = e

dropped-Moves :
    (p : Place) (j : Job) → j.place ≡ p → Moves (awaited drop_done p) p (on_dropped p j).place
unfolding on_dropped
dropped-Moves (dropping true) j e = omega arith
dropped-Moves (dropping false) j e = ground arith
dropped-Moves p j e = e

released-Moves :
    (p : Place) (j : Job) → j.place ≡ p → Moves (awaited release_done p) p (on_released p j).place
unfolding on_released
released-Moves (releasing ok) j e = omega arith
released-Moves p j e = e

click_stays : (j : Job) → ((click j).place ≡ j.place) × ((close_job j).place ≡ j.place)
unfolding click
click_stays j = ground arith

step-Moves : (i : Input) (j : Job) → Moves (awaited i j.place) j.place (step i j).place
unfolding step
step-Moves (compression_done ok) j = compressed-Moves ok j.place j refl
step-Moves (creation_done ok) j = created-Moves ok j.place j refl
step-Moves (upload_done ok) j = uploaded-Moves ok j.place j refl
step-Moves (unzip_done ok) j = unzipped-Moves ok j.place j refl
step-Moves drop_done j = dropped-Moves j.place j refl
step-Moves release_done j = released-Moves j.place j refl
step-Moves clicked j = (click_stays j).0
step-Moves closed j = (click_stays j).1

rank-le : (p : Place) → rank p ≤ 6
rank-le p = ground arith

some_awaited : (p : Place) → ((ok : Bool) × (p ≡ settled ok)) ⊎ ((i : Input) × (awaited i p ≡ true))
some_awaited awaiting_both = inr (compression_done true, refl)
some_awaited (awaiting_compression k) = inr (compression_done true, refl)
some_awaited (awaiting_creation c) = inr (creation_done true, refl)
some_awaited sending = inr (upload_done true, refl)
some_awaited unzipping = inr (unzip_done true, refl)
some_awaited (dropping ok) = inr (drop_done, refl)
some_awaited (releasing ok) = inr (release_done, refl)
some_awaited (settled ok) = inl (ok, refl)

-- A job that is not settled waits for an answer; each answer that it waits for, good or bad, brings
-- it at least one of at most six places nearer to its end; and every other input, clicks among
-- them, leaves it where it is. So a job whose answers come is settled.
pub answered_job_ends :
    (j : Job)
    → (((ok : Bool) × (j.place ≡ settled ok)) ⊎ ((i : Input) × (awaited i j.place ≡ true)))
      × ((i : Input) → Moves (awaited i j.place) j.place (step i j).place)
      × (rank j.place ≤ 6)
answered_job_ends j = (some_awaited j.place, λ i. step-Moves i j, rank-le j.place)
