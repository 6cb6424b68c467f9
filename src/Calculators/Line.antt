-- ===== src/Calculators/Line.antt =====
-- The job set as a line of jobs: a job is added at its end, a block takes its first jobs, and a block
-- that comes takes its own jobs out of it.
use blockafile.Base.{
  ℕ, zero, suc, ◌+◌, ◌≡◌, refl, ap, ◌∙◌, inl, inr, true, some, List, [], ◌∷◌, ◌++◌, map, arith,
  length, take, drop, Bool-cases, if◌then◌else◌,
}
use blockafile.Base.Int.{ℤ, pos, ◌-ℤ◌}
use blockafile.Crypto.Block.{BlockOp}
use blockafile.DataStruct.PriorityQueue.{Item}
use blockafile.DataStruct.PriorityQueue.Removal.{heap_push-Adds}
use blockafile.DataStruct.PriorityQueue.Highest.{heap_push-IsHeap}
use blockafile.Calculators.{BlockCalculator, op_eq, add_job, pop_jobs, remove_jobs}
use blockafile.Calculators.Jobs.{count-le-length}
use blockafile.Calculators.Cut.{without, remove_job-Lines}
use blockafile.Calculators.Fifo.{Entry, Lines, IsLine-last, entry_count-append, heap_pop-Lines}

abbrev pub jobs_of : List Entry → List BlockOp
jobs_of js = map (λ e. e.0) js

-- The line of the entries `js` is the job set of a calculator, whose next priority is lower.
abbrev pub InLine : BlockCalculator → List Entry → Type 0
InLine bc js = Lines bc.job_set bc.counter js

pub pop_jobs-Lines :
    (n : ℕ) (jobs : List (Item BlockOp)) (low : ℤ) (js : List Entry)
    → Lines jobs low js
    → (left : List (Item BlockOp)) × (pop_jobs n jobs ≡ some (take n (jobs_of js), left))
      × Lines left low (drop n js)
unfolding pop_jobs
pop_jobs-Lines zero jobs low js l = (jobs, refl, l)
pop_jobs-Lines (suc n) [] low [] l = ([], refl, l)
pop_jobs-Lines (suc n) [] low (e ∷ js) l = absurd (omega (arith, l.counts (λ v p. true)))
pop_jobs-Lines (suc n) (x ∷ jobs) low [] l = absurd (omega (arith, l.counts (λ v p. true)))
pop_jobs-Lines (suc n) (x ∷ jobs) low ((b, p) ∷ js) l =
    let (out, rest, taken, value, l') = heap_pop-Lines x jobs low b p js l in
    let (left, done, l'') = pop_jobs-Lines n rest low js l' in (left, ground arith, l'')

pub add_job-InLine :
    (bc : BlockCalculator) (js : List Entry) (b : BlockOp)
    → InLine bc js
    → (bc' : BlockCalculator) × (add_job bc b ≡ some bc')
      × InLine bc' (js ++ (b, bc.counter) ∷ [])
      × (bc'.ops_per_block ≡ bc.ops_per_block)
unfolding add_job
add_job-InLine bc js b l =
    let item : Item BlockOp = record { value = b; priority = bc.counter; index = some 0 } in
    let a = heap_push-Adds bc.job_set item in
    (
      record bc { job_set = a.after; counter = bc.counter -ℤ pos 1; noop_suspended = true },
      ground (arith, a.made),
      record {
        heap = heap_push-IsHeap bc.job_set a.after item a.made a.size l.heap;
        indexed = a.indexed l.indexed;
        line = IsLine-last bc.counter js b l.line;
        counts =
            λ eq. omega (arith, a.counts eq, l.counts eq, entry_count-append eq js (b, bc.counter));
      },
      refl,
    )

-- The jobs that are not DeepEqual to `rc`, or to any of the records.
abbrev drop_job : BlockOp → List BlockOp → List BlockOp
drop_job rc [] = []
drop_job rc (b ∷ q) = if op_eq b rc then drop_job rc q else b ∷ drop_job rc q

abbrev pub drop_jobs : List BlockOp → List BlockOp → List BlockOp
drop_jobs [] q = q
drop_jobs (rc ∷ records) q = drop_jobs records (drop_job rc q)

jobs_of-without :
    (rc : BlockOp) (js : List Entry) → jobs_of (without rc js) ≡ drop_job rc (jobs_of js)
jobs_of-without rc [] = refl
jobs_of-without rc (e ∷ js) = elim (Bool-cases (op_eq e.0 rc)) [
  | inl is ↦ rw is (jobs_of-without rc js)
  | inr other ↦ rw other (ap (◌∷◌ e.0) (jobs_of-without rc js))
]

pub jobs_of-drop : (n : ℕ) (js : List Entry) → jobs_of (drop n js) ≡ drop n (jobs_of js)
jobs_of-drop zero js = refl
jobs_of-drop (suc n) [] = refl
jobs_of-drop (suc n) (e ∷ js) = jobs_of-drop n js

pub remove_jobs-Lines :
    (records : List BlockOp) (jobs : List (Item BlockOp)) (low : ℤ) (js : List Entry)
    → Lines jobs low js
    → (rest : List (Item BlockOp)) × (js' : List Entry) × (remove_jobs jobs records ≡ some rest)
      × Lines rest low js'
      × (jobs_of js' ≡ drop_jobs records (jobs_of js))
unfolding remove_jobs
remove_jobs-Lines [] jobs low js l = (jobs, js, refl, l, refl)
remove_jobs-Lines (rc ∷ records) jobs low js l =
    let (s, first, l') =
      remove_job-Lines (length jobs + 1) jobs rc low js
        (omega (arith, count-le-length (λ job. op_eq job rc) jobs)) l in
    let (rest, js', done, l'', same) = remove_jobs-Lines records s low (without rc js) l' in
    (rest, js', ground arith, l'', same ∙ ap (drop_jobs records) (jobs_of-without rc js))
