-- ===== src/Calculators.antt =====
-- miner/block_calculators/block_calculators.go: the jobs that wait to be mined, and the rounds of the
-- two threads that mine. What the listener, other goroutines and the search for a nonce answer in a
-- round is an argument. `none` is a panic, or fuel that ran out.
mod Jobs
mod Counts
mod Fifo
mod Cut
mod Line
mod Steps
mod Rounds
mod Tests
use blockafile.Base.{
  ℕ, zero, suc, ◌+◌, ◌≡◌, Bool, true, false, not, ◌&&◌, Option, none, some, List, [], ◌∷◌, ◌++◌,
  Bytes, bytes_eq, leb, ltb, ◌==◌, if◌then◌else◌, length, copy, replicate,
}
use blockafile.Base.Int.{ℤ, pos, negsuc, ltb_ℤ, ◌-ℤ◌}
use blockafile.Crypto.Block.{
  BlockOp, BlockOpType, create_file, append_file, delete_file, other_op, Block, BlockType,
  regular_block, no_op_block, get_zeros_for_type, hash, find_nonce_with_stop_signal,
}
use blockafile.DataStruct.PriorityQueue.{Item, find, heap_push, heap_pop, heap_remove}

-- `BlockCalculator`, and `counter`, which all calculators share.
pub record BlockCalculator : Type 0 where
  pub job_set : List (Item BlockOp)
  pub counter : ℤ
  pub noop_suspended : Bool
  pub op_suspended : Bool
  pub shutdown_threads : Bool
  pub ops_per_block : ℕ
  pub op_number_of_zeros : ℕ
  pub no_op_number_of_zeros : ℕ
  pub max_confirm : ℤ

-- `math.MaxInt32`
abbrev pub max_int32 : ℕ
max_int32 = 2147483647

-- `NewBlockCalculator`
abbrev pub new_block_calculator : ℕ → ℕ → ℕ → ℤ → BlockCalculator
new_block_calculator op_zeros no_op_zeros ops_per_block max_confirm = record {
  job_set = [];
  counter = pos max_int32;
  noop_suspended = false;
  op_suspended = false;
  shutdown_threads = false;
  ops_per_block = ops_per_block;
  op_number_of_zeros = op_zeros;
  no_op_number_of_zeros = no_op_zeros;
  max_confirm = max_confirm;
}

-- `ShutdownThreads` and the first line of `StartThreads`
abbrev pub shutdown : BlockCalculator → BlockCalculator
shutdown bc = record bc { shutdown_threads = true }

abbrev pub start : BlockCalculator → BlockCalculator
start bc = record bc { shutdown_threads = false }

abbrev pub op_type_eq : BlockOpType → BlockOpType → Bool
op_type_eq create_file create_file = true
op_type_eq append_file append_file = true
op_type_eq delete_file delete_file = true
op_type_eq (other_op n) (other_op k) = n == k
op_type_eq _ _ = false

-- `reflect.DeepEqual` of two operations
unfoldable pub op_eq : BlockOp → BlockOp → Bool
op_eq a b =
    op_type_eq a.op_type b.op_type
    && bytes_eq a.creator b.creator
    && bytes_eq a.filename b.filename
    && a.record_number == b.record_number
    && bytes_eq a.data_bytes b.data_bytes

-- `AddJob`
unfoldable pub add_job : BlockCalculator → BlockOp → Option BlockCalculator
add_job bc b =
    let item : Item BlockOp = record { value = b; priority = bc.counter; index = some 0 } in
    elim (heap_push bc.job_set item) [
      | none ↦ none
      | some job_set ↦
          some
            (record bc { job_set = job_set; counter = bc.counter -ℤ pos 1; noop_suspended = true })
    ]

-- `jobExists`; none is -1.
unfoldable pub job_exists : List (Item BlockOp) → BlockOp → Option ℕ
unfolding op_eq
job_exists job_set b = find (λ job. op_eq job b) job_set

-- The inner `for` of `RemoveJobsFromBlock`
unfoldable pub remove_job : ℕ → List (Item BlockOp) → BlockOp → Option (List (Item BlockOp))
unfolding job_exists
remove_job zero job_set rc = none
remove_job (suc fuel) job_set rc =
    let next = λ (s : List (Item BlockOp)). remove_job fuel s rc in
    elim (job_exists job_set rc) [
      | none ↦ some job_set
      | some hp_idx ↦ elim (heap_remove job_set hp_idx) [
        | none ↦ none
        | some (out, rest) ↦ next rest
      ]
    ]

-- The outer one
unfoldable pub remove_jobs : List (Item BlockOp) → List BlockOp → Option (List (Item BlockOp))
unfolding remove_job
remove_jobs job_set [] = some job_set
remove_jobs job_set (rc ∷ records) =
    let next = λ (s : List (Item BlockOp)). remove_jobs s records in
    elim (remove_job (length job_set + 1) job_set rc) [ none ↦ none | some rest ↦ next rest ]

-- `RestartBlockCalculation`, also the end of `RemoveJobsFromBlock`
abbrev pub restart_block_calculation : BlockCalculator → BlockCalculator
restart_block_calculation bc = record bc { op_suspended = true; noop_suspended = true }

-- `RemoveJobsFromBlock`
unfoldable pub remove_jobs_from_block : BlockCalculator → Block → Option BlockCalculator
unfolding remove_jobs
remove_jobs_from_block bc block = elim (remove_jobs bc.job_set block.records) [
  | none ↦ none
  | some job_set ↦ some (restart_block_calculation (record bc { job_set = job_set }))
]

-- The `for` of `getBlockOps` after its first round: at most `n` jobs, the highest priority first.
unfoldable pub pop_jobs : ℕ → List (Item BlockOp) → Option (List BlockOp × List (Item BlockOp))
pop_jobs zero job_set = some ([], job_set)
pop_jobs (suc n) [] = some ([], [])
pop_jobs (suc n) (first ∷ others) =
    let next = λ (s : List (Item BlockOp)). pop_jobs n s in
    elim (heap_pop (first ∷ others)) [
      | none ↦ none
      | some (item, rest) ↦ elim (next rest) [
        | none ↦ none
        | some (b_ops, left) ↦ some (item.value ∷ b_ops, left)
      ]
    ]

-- `getBlockOps`; `slept` is what other goroutines do to the calculator in the first round, in which
-- the mutex is released, and `validate` is the listener's `ValidateJobSet`.
unfoldable pub get_block_ops :
    (BlockCalculator → BlockCalculator)
    → (List BlockOp → List BlockOp)
    → BlockCalculator
    → Option (List BlockOp × BlockCalculator)
unfolding pop_jobs
get_block_ops slept validate bc =
    let woken = if length bc.job_set == 0 then bc else slept bc in
    elim (pop_jobs woken.ops_per_block woken.job_set) [
      | none ↦ none
      | some (b_ops, left) ↦ some (validate b_ops, record woken { job_set = left })
    ]

-- The jobs of a block, put back one after the other.
unfoldable pub add_jobs : BlockCalculator → List BlockOp → Option BlockCalculator
unfolding add_job
add_jobs bc [] = some bc
add_jobs bc (r ∷ records) =
    let next = λ (c : BlockCalculator). add_jobs c records in
    elim (add_job bc r) [ none ↦ none | some bc' ↦ next bc' ]
