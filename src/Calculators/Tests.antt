-- ===== src/Calculators/Tests.antt =====
-- Jobs that are taken and put back, and a block that has one of them.
use blockafile.Base.{
  zero, suc, ◌+◌, ◌≡◌, Bool, true, some, List, [], ◌∷◌, arith, codes, length, bytes_eq,
}
use blockafile.Base.Int.{pos}
use blockafile.Crypto.Block.{BlockOp, create_file, append_file, Block, regular_block}
use blockafile.DataStruct.PriorityQueue.{Item}
use blockafile.DataStruct.PriorityQueue.Moves.{IsIndexed, count}
use blockafile.Calculators.{
  BlockCalculator, new_block_calculator, remove_jobs_from_block, get_block_ops, add_jobs, op_eq,
}
use blockafile.Calculators.Jobs.{Without, AreGone, is_in, remove_jobs_from_block-Without}
use blockafile.Calculators.Steps.{JobStep, adds, takes, block_comes, run_jobs, run_jobs-run_list}
use blockafile.Calculators.Counts.{op_count, get_block_ops-add_jobs}

abbrev creation : BlockOp
creation = record {
  op_type = create_file;
  creator = codes "ann";
  filename = codes "notes";
  record_number = 0;
  data_bytes = [];
}

abbrev extension : BlockOp
extension = record creation { op_type = append_file; data_bytes = codes "x" }

abbrev jobs : List (Item BlockOp)
jobs =
    record { value = creation; priority = pos 9; index = some 0 }
    ∷ record { value = extension; priority = pos 8; index = some 1 }
    ∷ []

abbrev calculator : BlockCalculator
calculator = record (new_block_calculator 4 5 3 (pos 2)) { job_set = jobs }

jobs-IsIndexed : IsIndexed jobs
jobs-IsIndexed zero a h = ground arith
jobs-IsIndexed (suc zero) a h = ground arith
jobs-IsIndexed (suc (suc k)) a h = absurd (ground arith)

abbrev mined : Block
mined = record {
  block_type = regular_block;
  prev_block = codes "p";
  records = creation ∷ [];
  miner_id = codes "bob";
  nonce = 1;
}

remove_jobs_from_block-Without_example :
    (bc' : BlockCalculator) × (remove_jobs_from_block calculator mined ≡ some bc')
    × AreGone (creation ∷ []) bc'.job_set
    × Without (λ job. is_in (creation ∷ []) job ≡ true) jobs bc'.job_set
    × (bc'.noop_suspended ≡ true)
    × (bc'.op_suspended ≡ true)
remove_jobs_from_block-Without_example =
    remove_jobs_from_block-Without calculator mined jobs-IsIndexed

get_block_ops-add_jobs_example :
    (ops : List BlockOp) × (bc' bc'' : BlockCalculator) × (get_block_ops
        (λ s. s)
        (λ b_ops. b_ops)
        calculator
      ≡ some (ops, bc'))
    × (add_jobs bc' ops ≡ some bc'')
    × (length ops ≡ 2)
    × ((eq : BlockOp → Bool)
        → count eq bc''.job_set + op_count eq ops ≡ count eq jobs + op_count eq ops)
    × (IsIndexed jobs → IsIndexed bc''.job_set)
get_block_ops-add_jobs_example =
    get_block_ops-add_jobs (λ s. s) (λ b_ops. b_ops) calculator (omega arith)

abbrev steps : List JobStep
steps = adds creation ∷ adds extension ∷ adds creation ∷ block_comes mined ∷ takes ∷ []

run_jobs-run_list_example :
    (bc' : BlockCalculator) × (run_jobs steps (new_block_calculator 4 5 3 (pos 2))
      ≡ some ([] ∷ [] ∷ [] ∷ [] ∷ (extension ∷ []) ∷ [], bc'))
unfolding op_eq bytes_eq
run_jobs-run_list_example = run_jobs-run_list 4 5 3 (pos 2) steps
