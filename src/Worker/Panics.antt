-- ===== src/Worker/Panics.antt =====
-- malstrom-core/src/worker/mod.rs: where the panic of a worker that runs comes from.
use malstrom.Base.{
  ℕ, Bool, true, List, [], ◌∷◌, ◌≡◌, refl, Bool-cases, inl, inr, sym, ◌∙◌, ◌⊎◌, zero, suc, Result,
  ok, panic, ltb, ◌&&◌,
}
use malstrom.Types.{WorkerId, Version}
use malstrom.Channels.Output
use malstrom.Worker.{
  Progress, done, cut, panicked, from_result, and_then, work_off, step_operators, wait_alone,
  schedule, RunnableOperator, WorkerWorld, step, perform_snapshot, perform_reconfig,
  perform_suspend,
}
use mathlib.Core.List.{Mem, mem-reverse, reverse, mem-cons_self, mem-cons_of_mem}

-- One of the operators panics in some world.
abbrev pub Breaks : {R : Type 0} → List (RunnableOperator R) → Type 0
Breaks {R} operators =
    (op : RunnableOperator R) × (w : WorkerWorld R) × Mem op operators
    × (op.operator_step w ≡ panic)

and_then-panicked :
    {A B : Type 0} (p : Progress A) (next : A → Progress B)
    → and_then p next ≡ panicked
    → (p ≡ panicked) ⊎ ((a : A) × (p ≡ done a) × (next a ≡ panicked))
and_then-panicked (done a) next h = inr (a, refl, h)
and_then-panicked cut next h = cc
and_then-panicked panicked next h = inl refl

from_result-panicked : {A : Type 0} (r : Result A) → from_result r ≡ panicked → r ≡ panic
from_result-panicked panic h = refl
from_result-panicked (ok a) h = cc

pub done_panicked : {A : Type 0} (a : A) → done a ≡ panicked → ⊥
done_panicked a e = cc

-- A panic of a worker is a panic of an operator.
module _ {R : Type 0} where
  work_off-panicked :
      (fuel : ℕ) (op : RunnableOperator R) (w : WorkerWorld R)
      → work_off fuel op w ≡ panicked
      → (v : WorkerWorld R) × (op.operator_step v ≡ panic)
  unfolding work_off
  work_off-panicked zero op w h = cc
  work_off-panicked (suc fuel) op w h = elim (Bool-cases (op.has_queued_work w)) [
    | inr idle ↦ absurd (done_panicked w (sym (rw idle refl) ∙ h))
    | inl queued ↦
        elim (and_then-panicked (from_result (op.operator_step w)) (λ v. work_off fuel op v)
          (sym (rw queued refl) ∙ h)) [
            | inl e ↦ (w, from_result-panicked (op.operator_step w) e)
            | inr (v, e, f) ↦ work_off-panicked fuel op v f
          ]
  ]

  step_operators-panicked :
      (fuel : ℕ) (ops : List (RunnableOperator R)) (b : Bool) (w : WorkerWorld R)
      → step_operators fuel ops b w ≡ panicked
      → Breaks ops
  unfolding step_operators
  step_operators-panicked fuel [] b w h = cc
  step_operators-panicked fuel (op ∷ ops) b w h = elim (Bool-cases (op.is_suspended w)) [
    | inl skipped ↦ later (step_operators-panicked fuel ops b w (sym (rw skipped refl) ∙ h))
    | inr stepped ↦
        let last = λ (w' : WorkerWorld R). step_operators fuel ops (b && op.is_finalized w') w' in
        elim (and_then-panicked (from_result (op.operator_step w))
          (λ v. and_then (work_off fuel op v) last) (sym (rw stepped refl) ∙ h)) [
            | inl e ↦ (op, w, mem-cons_self, from_result-panicked (op.operator_step w) e)
            | inr (v, e, f) ↦ elim (and_then-panicked (work_off fuel op v) last f) [
              | inl e' ↦
                  let (u, broken) = work_off-panicked fuel op v e' in (op, u, mem-cons_self, broken)
              | inr (w', e', f') ↦
                  later (step_operators-panicked fuel ops (b && op.is_finalized w') w' f')
            ]
          ]
  ]
    where
      later : Breaks ops → Breaks (op ∷ ops)
      later (o, v, m, broken) = (o, v, mem-cons_of_mem op m, broken)

  pub step-panicked :
      (fuel : ℕ) (operators : List (RunnableOperator R)) (w : WorkerWorld R)
      → step fuel operators w ≡ panicked
      → Breaks operators
  unfolding step
  step-panicked fuel operators w h =
      let (op, v, m, broken) = step_operators-panicked fuel (reverse operators) true w h in
      (op, v, mem-reverse.0 m, broken)

  wait_alone-panicked :
      (operators : List (RunnableOperator R)) (steps fuel : ℕ) (count : WorkerWorld R → ℕ)
      (w : WorkerWorld R)
      → wait_alone fuel count (schedule steps operators) w ≡ panicked
      → Breaks operators
  unfolding wait_alone
  wait_alone-panicked operators steps zero count w h = cc
  wait_alone-panicked operators steps (suc fuel) count w h = elim (Bool-cases (ltb 1 (count w))) [
    | inr alone ↦ absurd (done_panicked w (sym (rw alone refl) ∙ h))
    | inl shared ↦
        elim (and_then-panicked (schedule steps operators w)
          (λ v. wait_alone fuel count (schedule steps operators) v) (sym (rw shared refl) ∙ h)) [
            | inr (v, e, f) ↦ wait_alone-panicked operators steps fuel count v f
            | inl e ↦ elim (and_then-panicked (step steps operators w) (λ r. done r.0) e) [
              | inl e' ↦ step-panicked steps operators w e'
              | inr (r, e', f) ↦ absurd (done_panicked r.0 f)
            ]
          ]
  ]

module _ {R : Type 0} (fuel : ℕ) (operators : List (RunnableOperator R)) where
  -- A system message always goes out, so that a wait panics only by an operator.
  pub snapshot-panicked :
      (version : Version) (w : WorkerWorld R)
      → perform_snapshot fuel operators version w ≡ panicked
      → Breaks operators
  unfolding perform_snapshot Output.send Output.forward
  snapshot-panicked version w h = wait_alone-panicked operators fuel fuel _ _ h

  pub reconfig-panicked :
      (workers : List WorkerId) (version : Version) (w : WorkerWorld R)
      → perform_reconfig fuel operators workers version w ≡ panicked
      → Breaks operators
  unfolding perform_reconfig Output.send Output.forward
  reconfig-panicked workers version w h = wait_alone-panicked operators fuel fuel _ _ h

  pub suspend-panicked :
      (w : WorkerWorld R) → perform_suspend fuel operators w ≡ panicked → Breaks operators
  unfolding perform_suspend Output.send Output.forward
  suspend-panicked w h = wait_alone-panicked operators fuel fuel _ _ h
