-- ===== src/Calculators/Jobs.antt =====
-- The jobs that leave the queue and the jobs that come back.
use blockafile.Base.{
  ℕ, zero, suc, ◌+◌, ◌≤◌, ◌<◌, ◌≡◌, refl, sym, ap, ◌∙◌, ◌⊎◌, inl, inr, Bool, true, false, ◌||◌,
  Option, none, some, List, [], ◌∷◌, arith, length, get_elem?, Bool-cases,
}
use blockafile.Crypto.Block.{
  BlockOp, BlockOpType, create_file, append_file, delete_file, other_op, Block,
}
use blockafile.DataStruct.PriorityQueue.{Item, find}
use blockafile.DataStruct.PriorityQueue.Moves.{IsIndexed, count, hit, on_value}
use blockafile.DataStruct.PriorityQueue.Removal.{heap_remove-Takes}
use blockafile.Calculators.{
  BlockCalculator, op_type_eq, op_eq, job_exists, remove_job, remove_jobs, remove_jobs_from_block,
  restart_block_calculation,
}

pub op_type_eq-true : (a b : BlockOpType) → op_type_eq a b ≡ true → a ≡ b
op_type_eq-true create_file b h = ground arith
op_type_eq-true append_file b h = ground arith
op_type_eq-true delete_file b h = ground arith
op_type_eq-true (other_op n) b h = ground arith

pub op_type_eq_refl : (a : BlockOpType) → op_type_eq a a ≡ true
op_type_eq_refl create_file = refl
op_type_eq_refl append_file = refl
op_type_eq_refl delete_file = refl
op_type_eq_refl (other_op n) = ground arith

module _ {V : Type 0} (eq : V → Bool) where
  -- The items from place `k` on.
  find-Finds :
      (pq : List (Item V)) (k : ℕ)
      → ((i : ℕ) (a : Item V) → get_elem? pq i ≡ some a → a.index ≡ some (k + i))
      → ((count eq pq ≡ 0) × (find eq pq ≡ none))
        ⊎ ((i : ℕ) × (item : Item V) × (find eq pq ≡ some (k + i))
            × (get_elem? pq i ≡ some item)
            × (eq item.value ≡ true))
  unfolding find
  find-Finds [] k h = inl (refl, refl)
  find-Finds (x ∷ pq) k h = elim (Bool-cases (eq x.value)) [
    | inl same ↦ inr (0, x, ground (arith, h 0 x refl), refl, same)
    | inr other ↦ elim (find-Finds pq (k + 1) (λ i a e. later i (h (suc i) a e))) [
      | inl (zero_left, nowhere) ↦ inl (ground arith, ground arith)
      | inr (i, item, found, there, same) ↦ inr (suc i, item, ground (arith, next i), there, same)
    ]
  ]
    where
      next : (i : ℕ) → k + suc i ≡ k + 1 + i
      next i = omega arith

      later : {o : Option ℕ} (i : ℕ) → o ≡ some (k + suc i) → o ≡ some (k + 1 + i)
      later i e = e ∙ ap some (next i)

pub count-le-length : {V : Type 0} (eq : V → Bool) (pq : List (Item V)) → count eq pq ≤ length pq
count-le-length eq [] = omega arith
count-le-length eq (x ∷ pq) = ground (arith, count-le-length eq pq)

-- `job_exists` is nowhere, or a place in range that holds the job.
pub job_exists-cases :
    (jobs : List (Item BlockOp)) (rc : BlockOp)
    → IsIndexed jobs
    → ((count (λ job. op_eq job rc) jobs ≡ 0) × (job_exists jobs rc ≡ none))
      ⊎ ((i : ℕ) × (item : Item BlockOp) × (job_exists jobs rc ≡ some i)
          × (get_elem? jobs i ≡ some item)
          × (op_eq item.value rc ≡ true))
unfolding job_exists
job_exists-cases jobs rc h =
    let start : (i : ℕ) → 0 + i ≡ i = λ i. omega arith in
    elim (find-Finds (λ job. op_eq job rc) jobs 0 (λ i a e. h i a e ∙ ap some (sym (start i)))) [
      | inl nowhere ↦ inl nowhere
      | inr (i, item, found, there, same) ↦ inr (i, item, found ∙ ap some (start i), there, same)
    ]

-- `rest` is `jobs` without the jobs that `gone` is true of: the other jobs are as many as before.
pub record Without (gone : BlockOp → Type 0) (jobs rest : List (Item BlockOp)) : Type 0 where
  pub indexed : IsIndexed rest
  pub fewer : (q : BlockOp → Bool) → count q rest ≤ count q jobs
  pub others :
      (q : BlockOp → Bool)
      → ((job : BlockOp) → gone job → q job ≡ false)
      → count q rest ≡ count q jobs

remove_job-Without :
    (fuel : ℕ) (jobs : List (Item BlockOp)) (rc : BlockOp)
    → IsIndexed jobs
    → count (λ job. op_eq job rc) jobs < fuel
    → (rest : List (Item BlockOp)) × (remove_job fuel jobs rc ≡ some rest)
      × (count (λ job. op_eq job rc) rest ≡ 0)
      × Without (λ job. op_eq job rc ≡ true) jobs rest
unfolding remove_job
remove_job-Without zero jobs rc h enough = absurd (omega arith)
remove_job-Without (suc fuel) jobs rc h enough = elim (job_exists-cases jobs rc h) [
  | inl (gone, nowhere) ↦ (
    jobs,
    ground arith,
    gone,
    record { indexed = h; fewer = λ q. omega arith; others = λ q d. refl },
  )
  | inr (i, item, found, there, same) ↦
      let t = heap_remove-Takes jobs i item there in
      let mine = t.counts (on_value (λ job. op_eq job rc)) in
      let one : hit (λ job. op_eq job rc) item ≡ 1 = ground arith in
      let (rest, done, gone, w) =
        remove_job-Without fuel t.rest rc (t.indexed h) (omega (arith, mine, one, enough)) in
      (
        rest,
        ground (arith, t.taken),
        gone,
        record {
          indexed = w.indexed;
          fewer = λ q. omega (arith, w.fewer q, t.counts (on_value q));
          others = λ q d.
              let miss : hit q item ≡ 0 = ground (arith, d item.value same) in
              omega (arith, w.others q d, t.counts (on_value q), miss);
        },
      )
]

-- Whether a job is DeepEqual to one of the records.
abbrev pub is_in : List BlockOp → BlockOp → Bool
is_in [] job = false
is_in (rc ∷ records) job = op_eq job rc || is_in records job

-- No job of `jobs` is DeepEqual to one of the records.
abbrev pub AreGone : List BlockOp → List (Item BlockOp) → Type 0
AreGone [] jobs = Unit
AreGone (rc ∷ records) jobs = (count (λ job. op_eq job rc) jobs ≡ 0) × AreGone records jobs

remove_jobs-Without :
    (records : List BlockOp) (jobs : List (Item BlockOp))
    → IsIndexed jobs
    → (rest : List (Item BlockOp)) × (remove_jobs jobs records ≡ some rest)
      × AreGone records rest
      × Without (λ job. is_in records job ≡ true) jobs rest
unfolding remove_jobs
remove_jobs-Without [] jobs h =
    (jobs, refl, tt, record { indexed = h; fewer = λ q. omega arith; others = λ q d. refl })
remove_jobs-Without (rc ∷ records) jobs h =
    let (s, first, gone, w) =
      remove_job-Without (length jobs + 1) jobs rc h
        (omega (arith, count-le-length (λ job. op_eq job rc) jobs)) in
    let (rest, done, others_gone, v) = remove_jobs-Without records s w.indexed in
    (
      rest,
      ground arith,
      (omega (arith, v.fewer (λ job. op_eq job rc), gone), others_gone),
      record {
        indexed = v.indexed;
        fewer = λ q. omega (arith, v.fewer q, w.fewer q);
        others = λ q d.
            v.others q (λ job e. d job (ground arith)) ∙ w.others q (λ job e. d job (ground arith));
      },
    )

-- If each item of the job set holds its place, then RemoveJobsFromBlock ends without a panic. After
-- it, each item still holds its place, no job equals a record of the block, both searches are
-- suspended, and of the jobs that equal no record of the block there are as many as before.
pub remove_jobs_from_block-Without :
    (bc : BlockCalculator) (block : Block)
    → IsIndexed bc.job_set
    → (bc' : BlockCalculator) × (remove_jobs_from_block bc block ≡ some bc')
      × AreGone block.records bc'.job_set
      × Without (λ job. is_in block.records job ≡ true) bc.job_set bc'.job_set
      × (bc'.noop_suspended ≡ true)
      × (bc'.op_suspended ≡ true)
unfolding remove_jobs_from_block
remove_jobs_from_block-Without bc block h =
    let (rest, done, gone, w) = remove_jobs-Without block.records bc.job_set h in
    (restart_block_calculation (record bc { job_set = rest }), ground arith, gone, w, refl, refl)
