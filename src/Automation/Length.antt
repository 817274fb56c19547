-- ===== src/Automation/Length.antt =====
-- tools/task_automation/controller.py: how long a run can last.
use mathlib.Core.Path.{subst}
use night_recon.Prelude.{
  Bool, Bool-cases, List, Result-cases, [], ap, arith, false, inl, inr, length, ok, true, ℕ, ◌*◌,
  ◌+◌, ◌-◌, ◌<◌, ◌∙◌, ◌∷◌, ◌≡◌, ◌≤◌,
}
use night_recon.Automation.Evidence.{enter-state}
use night_recon.Automation.Runs.{
  Run, State, Step, TaskPolicy, admitted, advance, blocked, check_repair, completed, enter,
  failed_state, has_edge, pending, repairing, running, transition, validating,
}

rank : State → ℕ
rank pending = 4
rank admitted = 3
rank running = 2
rank validating = 1
rank repairing = 2
rank s = 0

is_repairing : State → Bool
is_repairing repairing = true
is_repairing s = false

rank_falls : (s t : State) → has_edge s t ≡ true → is_repairing t ≡ false → rank t < rank s
unfolding has_edge rank is_repairing
rank_falls s t h r = ground arith

rank_repairing : (s : State) → has_edge s repairing ≡ true → rank s ≡ 1
unfolding has_edge rank
rank_repairing s h = ground arith

-- an upper bound on the transitions that a run has left
pub budget : TaskPolicy → Run → ℕ
unfolding rank
budget policy run = 2 * (policy.max_repair_attempts - run.repair_attempts) + rank run.state

enter_repairs :
    (t : State) (policy : TaskPolicy) (run next : Run) (step : Step)
    → enter t policy run step ≡ ok next
    → is_repairing t ≡ false
    → next.repair_attempts ≡ run.repair_attempts
unfolding enter is_repairing
enter_repairs pending policy run next step h r = ground arith
enter_repairs admitted policy run next step h r = ground arith
enter_repairs running policy run next step h r = ground arith
enter_repairs validating policy run next step h r = ground arith
enter_repairs repairing policy run next step h r = cc
enter_repairs blocked policy run next step h r = ground arith
enter_repairs failed_state policy run next step h r = ground arith
enter_repairs completed policy run next step h r = ground arith

enter_repairing :
    (policy : TaskPolicy) (run next : Run) (step : Step)
    → enter repairing policy run step ≡ ok next
    → (next.repair_attempts ≡ run.repair_attempts + 1)
      × (run.repair_attempts < policy.max_repair_attempts)
unfolding enter check_repair
enter_repairing policy run next step h = (ground arith, ground arith)

repairing-only : (s : State) → is_repairing s ≡ true → s ≡ repairing
unfolding is_repairing
repairing-only s h = ground arith

-- one transition uses some of the budget, and keeps the repairs within the policy's limit
transition-budget :
    (policy : TaskPolicy) (run next : Run) (step : Step)
    → transition policy run step ≡ ok next
    → (budget policy next < budget policy run) × (next.repair_attempts ≤ policy.max_repair_attempts)
unfolding transition budget
transition-budget policy run next step h =
    let entered : enter step.target policy run step ≡ ok next = ground (arith, h) in
    let edge : has_edge run.state step.target ≡ true = ground (arith, h) in
    let limit : run.repair_attempts ≤ policy.max_repair_attempts = ground (arith, h) in
    let target = enter-state step.target policy run next step entered in
    elim (Bool-cases (is_repairing step.target)) [
      | inr other ↦
          let same = enter_repairs step.target policy run next step entered other in
          let falls = rank_falls run.state step.target edge other in
          (omega (arith, same, falls, ap rank target), omega (arith, same, limit))
      | inl again ↦
          let eq = repairing-only step.target again in
          let (more, room) =
            enter_repairing policy run next step
              (subst (λ (t : State). enter t policy run step ≡ ok next) eq entered) in
          let was = rank_repairing run.state (ground (arith, edge, eq)) in
          (omega (arith, more, room, was, ap rank (target ∙ eq)), omega (arith, more, room))
    ]

advance-budget :
    (policy : TaskPolicy) (run final : Run) (steps : List Step)
    → advance policy run steps ≡ ok final
    → length steps ≤ budget policy run
unfolding advance
advance-budget policy run final [] h = omega arith
advance-budget policy run final (step ∷ steps) h =
    elim (Result-cases (transition policy run step)) [
      | inr (x, b) ↦ absurd (ground (arith, b, h))
      | inl (next, b) ↦ omega (
        arith,
        advance-budget policy next final steps (ground (arith, b, h)),
        (transition-budget policy run next step b).0,
      )
    ]

rank-le : (s : State) → rank s ≤ 4
unfolding rank
rank-le s = ground arith

-- No run goes through more transitions than two for each repair that the policy allows and four
-- more, so every run that keeps moving ends.
pub advance-length-le :
    (policy : TaskPolicy) (run final : Run) (steps : List Step)
    → advance policy run steps ≡ ok final
    → length steps ≤ 2 * policy.max_repair_attempts + 4
unfolding budget
advance-length-le policy run final steps h =
    omega (arith, advance-budget policy run final steps h, rank-le run.state)

-- Transitions never lead beyond the repairs that the policy allows.
pub advance-repairs-le :
    (policy : TaskPolicy) (run final : Run) (steps : List Step)
    → advance policy run steps ≡ ok final
    → run.repair_attempts ≤ policy.max_repair_attempts
    → final.repair_attempts ≤ policy.max_repair_attempts
unfolding advance
advance-repairs-le policy run final [] h l = ground (arith, h, l)
advance-repairs-le policy run final (step ∷ steps) h l =
    elim (Result-cases (transition policy run step)) [
      | inr (x, b) ↦ absurd (ground (arith, b, h))
      | inl (next, b) ↦
          advance-repairs-le policy next final steps (ground (arith, b, h))
            (transition-budget policy run next step b).1
    ]
