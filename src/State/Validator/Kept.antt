-- ===== src/State/Validator/Kept.antt =====
-- What a scan keeps of the operations that it is given.
use mathlib.Core.List.{append-nil, append_assoc}
use blockafile.Base.{
  ◌+◌, ◌≤◌, ◌≡◌, refl, sym, ◌∙◌, List, [], ◌∷◌, ◌++◌, arith, length, length-append,
}
use blockafile.Crypto.Block.{BlockOp}

-- What a scan of `bcs` has done to the kept operations and the errors: at most all operations are
-- kept, and if all are, there is no new error.
abbrev pub Filters : {X : Type 0} → List BlockOp → List BlockOp → X → List BlockOp → X → Type 0
Filters bcs kept errors kept' errors' =
    (length kept' ≤ length kept + length bcs)
    × (length kept' ≡ length kept + length bcs → (kept' ≡ kept ++ bcs) × (errors' ≡ errors))

pub Filters-keep :
    {X : Type 0} (tx : BlockOp) (bcs kept kept' : List BlockOp) (errors errors' : X)
    → Filters bcs (kept ++ tx ∷ []) errors kept' errors'
    → Filters (tx ∷ bcs) kept errors kept' errors'
Filters-keep tx bcs kept kept' errors errors' (le, whole) = (
  omega (arith, length-append kept (tx ∷ [])),
  λ e.
      let (same, clean) = whole (omega (arith, length-append kept (tx ∷ []))) in
      (same ∙ append_assoc kept (tx ∷ []) bcs, clean),
)

pub Filters-drop :
    {X : Type 0} (tx : BlockOp) (bcs kept kept' : List BlockOp) (errors more errors' : X)
    → Filters bcs kept more kept' errors'
    → Filters (tx ∷ bcs) kept errors kept' errors'
Filters-drop tx bcs kept kept' errors more errors' (le, whole) =
    (omega arith, λ e. absurd (omega arith))

pub Filters-none :
    {X : Type 0} (kept : List BlockOp) (errors : X) → Filters [] kept errors kept errors
Filters-none kept errors = (omega arith, λ _. (sym (append-nil kept), refl))
