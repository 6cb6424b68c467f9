-- ===== src/Calculators/Counts.antt =====
-- Jobs that are taken for a block, and put back.
use blockafile.Base.{
  ℕ, zero, suc, ◌+◌, ◌<◌, ◌≡◌, refl, ap, Bool, true, false, some, List, [], ◌∷◌, arith, ◌==◌,
  if◌then◌else◌, length,
}
use blockafile.Base.Int.{pos, ◌-ℤ◌}
use blockafile.Crypto.Block.{BlockOp}
use blockafile.DataStruct.PriorityQueue.{Item}
use blockafile.DataStruct.PriorityQueue.Moves.{IsIndexed, count, hit, on_value}
use blockafile.DataStruct.PriorityQueue.Removal.{heap_pop-Takes, heap_push-Adds}
use blockafile.Calculators.{BlockCalculator, add_job, add_jobs, pop_jobs, get_block_ops}

-- How many operations of a list `eq` is true of.
abbrev pub op_count : (BlockOp → Bool) → List BlockOp → ℕ
op_count eq [] = 0
op_count eq (b ∷ ops) = (if eq b then 1 else 0) + op_count eq ops

abbrev pub min_length : ℕ → List (Item BlockOp) → ℕ
min_length zero jobs = 0
min_length (suc n) [] = 0
min_length (suc n) (x ∷ jobs) = suc (min_length n jobs)

min_length_eq :
    (n : ℕ) (jobs jobs' : List (Item BlockOp))
    → length jobs ≡ length jobs'
    → min_length n jobs ≡ min_length n jobs'
min_length_eq zero jobs jobs' h = refl
min_length_eq (suc n) [] [] h = refl
min_length_eq (suc n) [] (y ∷ jobs') h = absurd (omega (arith, h))
min_length_eq (suc n) (x ∷ jobs) [] h = absurd (omega (arith, h))
min_length_eq (suc n) (x ∷ jobs) (y ∷ jobs') h =
    ap suc (min_length_eq n jobs jobs' (omega (arith, h)))

-- `ops` are taken out of `jobs`, as many as there are up to `n`, and `left` stay.
pub record Popped (n : ℕ) (jobs : List (Item BlockOp)) (ops : List BlockOp)
    (left : List (Item BlockOp)) : Type 0 where
  pub size : length ops ≡ min_length n jobs
  pub counts : (eq : BlockOp → Bool) → count eq left + op_count eq ops ≡ count eq jobs
  pub indexed : IsIndexed jobs → IsIndexed left

pop_jobs-Popped :
    (n : ℕ) (jobs : List (Item BlockOp))
    → (ops : List BlockOp) × (left : List (Item BlockOp)) × (pop_jobs n jobs ≡ some (ops, left))
      × Popped n jobs ops left
unfolding pop_jobs
pop_jobs-Popped zero jobs =
    ([], jobs, refl, record { size = refl; counts = λ eq. omega arith; indexed = λ h. h })
pop_jobs-Popped (suc n) [] =
    ([], [], refl, record { size = refl; counts = λ eq. omega arith; indexed = λ h. h })
pop_jobs-Popped (suc n) (x ∷ jobs) =
    let t = heap_pop-Takes (x ∷ jobs) x refl in
    let (ops, left, done, p) = pop_jobs-Popped n t.rest in
    let same = min_length_eq n t.rest jobs (omega (arith, t.size)) in
    (
      t.out.value ∷ ops,
      left,
      ground (arith, t.taken),
      record {
        size = omega (arith, p.size, same);
        counts = λ eq.
            let out : (if eq t.out.value then 1 else 0) ≡ hit eq x =
              ap (λ v. if eq v then 1 else 0) t.same_value in
            omega (arith, p.counts eq, t.counts (on_value eq), out);
        indexed = λ h. p.indexed (t.indexed h);
      },
    )

-- `bc'` has the jobs of `bc` and `ops`.
pub record Refilled (bc : BlockCalculator) (ops : List BlockOp) (bc' : BlockCalculator)
    : Type 0 where
  pub counts : (eq : BlockOp → Bool) → count eq bc'.job_set ≡ count eq bc.job_set + op_count eq ops
  pub indexed : IsIndexed bc.job_set → IsIndexed bc'.job_set

add_jobs-Refilled :
    (ops : List BlockOp) (bc : BlockCalculator)
    → (bc' : BlockCalculator) × (add_jobs bc ops ≡ some bc') × Refilled bc ops bc'
unfolding add_jobs add_job
add_jobs-Refilled [] bc = (bc, refl, record { counts = λ eq. omega arith; indexed = λ h. h })
add_jobs-Refilled (b ∷ ops) bc =
    let item : Item BlockOp = record { value = b; priority = bc.counter; index = some 0 } in
    let a = heap_push-Adds bc.job_set item in
    let next = record bc {
      job_set = a.after;
      counter = bc.counter -ℤ pos 1;
      noop_suspended = true;
    } in
    let (bc', done, r) = add_jobs-Refilled ops next in
    (
      bc',
      ground (arith, a.made),
      record {
        counts = λ eq. omega (arith, r.counts eq, a.counts (on_value eq));
        indexed = λ h. r.indexed (a.indexed h);
      },
    )

-- If there is a job, getBlockOps does not panic, whatever the other threads do to the calculator
-- while it sleeps. There is a list of jobs, as many as there are up to OpPerBlock, that it takes
-- out of those that the other threads left it and gives to ValidateJobSet; when the operations that
-- passed are put back, each operation is in the job set as often as after the sleep, less once for
-- each time that it is in the list, and once more for each time that it passed. So the operations
-- that did not pass, and no others, are gone. Each item of the job set then holds its place, if each
-- did after the sleep.
pub get_block_ops-add_jobs :
    (slept : BlockCalculator → BlockCalculator) (validate : List BlockOp → List BlockOp)
    (bc : BlockCalculator)
    → 0 < length bc.job_set
    → (ops : List BlockOp) × (bc' bc'' : BlockCalculator) × (get_block_ops slept validate bc
        ≡ some (validate ops, bc'))
      × (add_jobs bc' (validate ops) ≡ some bc'')
      × (length ops ≡ min_length (slept bc).ops_per_block (slept bc).job_set)
      × ((eq : BlockOp → Bool)
          → count eq bc''.job_set + op_count eq ops
            ≡ count eq (slept bc).job_set + op_count eq (validate ops))
      × (IsIndexed (slept bc).job_set → IsIndexed bc''.job_set)
unfolding get_block_ops
get_block_ops-add_jobs slept validate bc some_jobs =
    let woken = slept bc in
    let (ops, left, done, p) = pop_jobs-Popped woken.ops_per_block woken.job_set in
    let taken = record woken { job_set = left } in
    let (bc'', back, r) = add_jobs-Refilled (validate ops) taken in
    let full : (length bc.job_set == 0) ≡ false = ground arith in
    (
      ops,
      taken,
      bc'',
      ground arith,
      back,
      p.size,
      (λ eq. omega (arith, p.counts eq, r.counts eq)),
      λ h. r.indexed (p.indexed h),
    )
