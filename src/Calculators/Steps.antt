-- ===== src/Calculators/Steps.antt =====
-- Sequences of steps on a calculator's jobs, and on a plain list.
use mathlib.Core.List.{map-append}
use blockafile.Base.{
  ℕ, ◌≡◌, refl, ap, ◌∙◌, subst, Option, none, some, List, [], ◌∷◌, ◌++◌, arith, take, drop,
}
use blockafile.Base.Int.{ℤ}
use blockafile.Crypto.Block.{Block, BlockOp}
use blockafile.DataStruct.PriorityQueue.{Item}
use blockafile.Calculators.{
  BlockCalculator, new_block_calculator, add_job, pop_jobs, remove_jobs, remove_jobs_from_block,
  restart_block_calculation,
}
use blockafile.Calculators.Fifo.{Entry}
use blockafile.Calculators.Line.{
  jobs_of, InLine, drop_jobs, pop_jobs-Lines, add_job-InLine, jobs_of-drop, remove_jobs-Lines,
}

-- What happens to a calculator's jobs: `AddJob`, the loop of `getBlockOps` over the jobs, or
-- `RemoveJobsFromBlock`.
pub data JobStep : Type 0 where
  adds : BlockOp → JobStep
  takes : JobStep
  block_comes : Block → JobStep

-- The jobs that a step takes for a block, and the calculator after it.
abbrev no_jobs : Option BlockCalculator → Option (List BlockOp × BlockCalculator)
no_jobs none = none
no_jobs (some bc) = some ([], bc)

abbrev left_with :
    BlockCalculator
    → Option (List BlockOp × List (Item BlockOp))
    → Option (List BlockOp × BlockCalculator)
left_with bc none = none
left_with bc (some (b_ops, left)) = some (b_ops, record bc { job_set = left })

abbrev job_step : JobStep → BlockCalculator → Option (List BlockOp × BlockCalculator)
job_step (adds b) bc = no_jobs (add_job bc b)
job_step takes bc = left_with bc (pop_jobs bc.ops_per_block bc.job_set)
job_step (block_comes block) bc = no_jobs (remove_jobs_from_block bc block)

abbrev joined :
    List BlockOp
    → Option (List (List BlockOp) × BlockCalculator)
    → Option (List (List BlockOp) × BlockCalculator)
joined b_ops none = none
joined b_ops (some (outs, bc)) = some (b_ops ∷ outs, bc)

abbrev pub run_jobs :
    List JobStep → BlockCalculator → Option (List (List BlockOp) × BlockCalculator)
run_jobs [] bc = some ([], bc)
run_jobs (s ∷ steps) bc = elim (job_step s bc) [
  | none ↦ none
  | some (b_ops, bc') ↦ joined b_ops (run_jobs steps bc')
]

-- The same steps on a list of jobs, the oldest first, of which `n` are taken at once.
abbrev line_step : ℕ → JobStep → List BlockOp → List BlockOp × List BlockOp
line_step n (adds b) q = ([], q ++ b ∷ [])
line_step n takes q = (take n q, drop n q)
line_step n (block_comes block) q = ([], drop_jobs block.records q)

abbrev pub run_list : ℕ → List JobStep → List BlockOp → List (List BlockOp)
run_list n [] q = []
run_list n (s ∷ steps) q = let (b_ops, q') = line_step n s q in b_ops ∷ run_list n steps q'

-- A step on the calculator is the step on its line.
Stepped : BlockCalculator → List Entry → JobStep → Type 0
Stepped bc js s =
    (b_ops : List BlockOp) × (bc' : BlockCalculator) × (js' : List Entry) × (job_step s bc
      ≡ some (b_ops, bc'))
    × InLine bc' js'
    × ((b_ops, jobs_of js') ≡ line_step bc.ops_per_block s (jobs_of js))
    × (bc'.ops_per_block ≡ bc.ops_per_block)

came :
    (bc : BlockCalculator) (block : Block) (rest : List (Item BlockOp))
    → remove_jobs bc.job_set block.records ≡ some rest
    → job_step (block_comes block) bc
      ≡ some ([], restart_block_calculation (record bc { job_set = rest }))
unfolding remove_jobs_from_block
came bc block rest done = ground arith

job_step-Stepped :
    (s : JobStep) (bc : BlockCalculator) (js : List Entry) → InLine bc js → Stepped bc js s
unfolding Stepped
job_step-Stepped (adds b) bc js l =
    let (bc', done, l', same) = add_job-InLine bc js b l in
    (
      [],
      bc',
      js ++ (b, bc.counter) ∷ [],
      ap no_jobs done,
      l',
      ap (λ q. ([], q)) (map-append (λ (e : Entry). e.0) js ((b, bc.counter) ∷ [])),
      same,
    )
job_step-Stepped takes bc js l =
    let (left, done, l') = pop_jobs-Lines bc.ops_per_block bc.job_set bc.counter js l in
    (
      take bc.ops_per_block (jobs_of js),
      record bc { job_set = left },
      drop bc.ops_per_block js,
      ap (left_with bc) done,
      l',
      ap (λ q. (take bc.ops_per_block (jobs_of js), q)) (jobs_of-drop bc.ops_per_block js),
      refl,
    )
job_step-Stepped (block_comes block) bc js l =
    let (rest, js', done, l', same) = remove_jobs-Lines block.records bc.job_set bc.counter js l in
    (
      [],
      restart_block_calculation (record bc { job_set = rest }),
      js',
      came bc block rest done,
      l',
      ap (λ q. ([], q)) same,
      refl,
    )

run_jobs-cons :
    (s : JobStep) (steps : List JobStep) (bc bc' : BlockCalculator) (b_ops : List BlockOp)
    → job_step s bc ≡ some (b_ops, bc')
    → run_jobs (s ∷ steps) bc ≡ joined b_ops (run_jobs steps bc')
run_jobs-cons s steps bc bc' b_ops done =
    ap
      (λ (o : Option (List BlockOp × BlockCalculator)).
        elim o as (λ _. Option (List (List BlockOp) × BlockCalculator)) [
          | none ↦ none
          | some (ops, c) ↦ joined ops (run_jobs steps c)
        ])
      done

run_jobs-InLine :
    (steps : List JobStep) (bc : BlockCalculator) (js : List Entry)
    → InLine bc js
    → (bc' : BlockCalculator) × (run_jobs steps bc
        ≡ some (run_list bc.ops_per_block steps (jobs_of js), bc'))
unfolding Stepped
run_jobs-InLine [] bc js l = (bc, refl)
run_jobs-InLine (s ∷ steps) bc js l =
    let (b_ops, bc', js', done, l', same, size) = job_step-Stepped s bc js l in
    let (bc'', rest) = run_jobs-InLine steps bc' js' l' in
    (
      bc'',
      let rest' =
            subst (λ m. run_jobs steps bc' ≡ some (run_list m steps (jobs_of js'), bc'')) size
              rest in
          run_jobs-cons s steps bc bc' b_ops done
          ∙ ap (joined b_ops) rest'
          ∙ ap (λ x. some (x.0 ∷ run_list bc.ops_per_block steps x.1, bc'')) same,
    )

-- Take a new calculator and any sequence of steps on its jobs: AddJob, the loop in which getBlockOps
-- takes jobs, and RemoveJobsFromBlock for a block. No step panics, and what is taken at each step is
-- what is taken from a plain list in which each job is added at the end, the first OpPerBlock jobs
-- are taken, and a block removes all jobs that are DeepEqual to one of its records.
pub run_jobs-run_list :
    (op_zeros no_op_zeros n : ℕ) (max_confirm : ℤ) (steps : List JobStep)
    → (bc' : BlockCalculator) × (run_jobs steps
          (new_block_calculator op_zeros no_op_zeros n max_confirm)
        ≡ some (run_list n steps [], bc'))
run_jobs-run_list op_zeros no_op_zeros n max_confirm steps =
    run_jobs-InLine steps (new_block_calculator op_zeros no_op_zeros n max_confirm) [] (record {
      heap = λ k p q. absurd (omega arith);
      indexed = λ k a e. absurd (ground arith);
      line = tt;
      counts = λ eq. refl;
    })
