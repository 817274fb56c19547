-- ===== src/Automation/Evidence.antt =====
-- tools/task_automation/controller.py: what a completed run has shown, and how long a run can last.
use mathlib.Core.Path.{subst}
use night_recon.Prelude.{
  All, All-map, Bool, Bool-cases, List, Option-cases, Result-cases, String, [], all, arith, bool_Eq,
  contains, eq_of_beq, eq_refl, false, inl, inr, list_Eq, nat_Eq, ok, option_Eq, pair_Eq, refl,
  some, string_Eq, subset, sym, true, unique, ◌==◌, ◌∙◌, ◌∷◌, ◌≡◌,
}
use night_recon.Automation.Checks.{Check, validate}
use night_recon.Automation.Runs.{
  Candidate, Run, State, Step, TaskPolicy, admitted, blocked, check_completion, check_frozen,
  check_names, check_observations, completed, enter, failed_state, has_counts, pending, repairing,
  running, transition, validating,
}

-- An observation that counts for a candidate.
pub record Counts (policy : TaskPolicy) (candidate : Candidate) (check : Check) : Type 0 where
  pub valid : validate check ≡ ok tt
  pub fresh : check.candidate_digest ≡ candidate.digest
  pub skips : subset check.skip_ids policy.allowed_skip_ids ≡ true

check_observations-Counts :
    (policy : TaskPolicy) (candidate : Candidate) (names : List String) (checks : List Check)
    → check_observations policy candidate names checks ≡ ok tt
    → All (Counts policy candidate) checks
unfolding check_observations
check_observations-Counts policy candidate names [] h = tt
check_observations-Counts policy candidate names (check ∷ checks) h = (
  record {
    valid = ground arith;
    fresh = eq_of_beq check.candidate_digest candidate.digest (ground arith);
    skips = ground arith;
  },
  check_observations-Counts policy candidate (check.name ∷ names) checks (ground arith),
)

check_observations_apart :
    (policy : TaskPolicy) (candidate : Candidate) (names : List String) (checks : List Check)
    (n : String)
    → check_observations policy candidate names checks ≡ ok tt
    → contains n names ≡ true
    → contains n (check_names checks) ≡ false
unfolding check_observations contains
check_observations_apart policy candidate names [] n h c = refl
check_observations_apart policy candidate names (check ∷ checks) n h c =
    let rest =
      check_observations_apart policy candidate (check.name ∷ names) checks n (ground (arith, h)) in
    elim (Bool-cases (check.name == n)) [
      | inl same ↦ absurd (ground (arith, h, c, eq_of_beq check.name n same))
      | inr apart ↦ ground (arith, rest, c, apart)
    ]

check_observations-unique :
    (policy : TaskPolicy) (candidate : Candidate) (names : List String) (checks : List Check)
    → check_observations policy candidate names checks ≡ ok tt
    → unique (check_names checks) ≡ true
unfolding check_observations contains unique
check_observations-unique policy candidate names [] h = refl
check_observations-unique policy candidate names (check ∷ checks) h =
    let rest : check_observations policy candidate (check.name ∷ names) checks ≡ ok tt =
      ground (arith, h) in
    ground (
      arith,
      check_observations-unique policy candidate (check.name ∷ names) checks rest,
      check_observations_apart policy candidate (check.name ∷ names) checks check.name rest,
      eq_refl check.name,
    )

all-All : {A : Type 0} (p : A → Bool) (xs : List A) → all p xs ≡ true → All (λ x. p x ≡ true) xs
unfolding all
all-All p [] h = tt
all-All p (x ∷ xs) h = (ground arith, all-All p xs (ground arith))

-- The evidence of a completed run.
pub record IsProven (policy : TaskPolicy) (run : Run) : Type 0 where
  pub candidate : Candidate
  pub frozen : run.candidate ≡ some candidate
  pub in_scope : candidate.violations ≡ []
  pub observed : All (Counts policy candidate) run.checks
  pub distinct : unique (check_names run.checks) ≡ true
  pub complete : subset policy.required_checks (check_names run.checks) ≡ true
  pub passing : All (λ (c : Check). c.status ≡ "passed") run.checks
  pub counted : All (λ (c : Check). has_counts c ≡ true) run.checks

check_frozen-cases :
    (policy : TaskPolicy) (run : Run) (step : Step) (candidate : Candidate)
    → check_frozen policy run step ≡ ok candidate
    → (run.candidate ≡ some candidate)
      × (check_observations policy candidate [] step.checks ≡ ok tt)
unfolding check_frozen
check_frozen-cases policy run step candidate h = elim (Option-cases run.candidate) [
  | inl n ↦ absurd (ground (arith, n, h))
  | inr (c, f) ↦ elim (Result-cases (check_observations policy c [] step.checks)) [
    | inr (x, b) ↦ absurd (ground (arith, f, b, h))
    | inl (u, b) ↦
        let eq : c ≡ candidate = ground (arith, f, b, h) in
        (
          ground (arith, f, eq),
          subst (λ (z : Candidate). check_observations policy z [] step.checks ≡ ok tt) eq b,
        )
  ]
]

completion_facts :
    (policy : TaskPolicy) (candidate : Candidate) (checks : List Check)
    → check_completion policy candidate checks ≡ ok tt
    → (candidate.violations ≡ [])
      × (subset policy.required_checks (check_names checks) ≡ true)
      × (all (λ (c : Check). c.status == "passed") checks ≡ true)
      × (all has_counts checks ≡ true)
unfolding check_completion
completion_facts policy candidate checks h =
    (eq_of_beq candidate.violations [] (ground arith), ground arith, ground arith, ground arith)

enter-IsProven :
    (policy : TaskPolicy) (run next : Run) (step : Step)
    → enter completed policy run step ≡ ok next
    → IsProven policy next
unfolding enter
enter-IsProven policy run next step h = elim (Result-cases (check_frozen policy run step)) [
  | inr (x, b) ↦ absurd (ground (arith, b, h))
  | inl (candidate, b) ↦
      let (frozen, seen) = check_frozen-cases policy run step candidate b in
      let done : check_completion policy candidate step.checks ≡ ok tt = ground (arith, b, h) in
      let (in_scope, complete, passing, counted) =
        completion_facts policy candidate step.checks done in
      subst (IsProven policy) {x = record run { state = completed; checks = step.checks }}
        {y = next} (ground (arith, b, h))
        (record {
          candidate = candidate;
          frozen = frozen;
          in_scope = in_scope;
          observed = check_observations-Counts policy candidate [] step.checks seen;
          distinct = check_observations-unique policy candidate [] step.checks seen;
          complete = complete;
          passing =
              All-map (λ (c : Check). (c.status == "passed") ≡ true)
                (λ (c : Check). c.status ≡ "passed") step.checks (λ c. eq_of_beq c.status "passed")
                (all-All (λ (c : Check). c.status == "passed") step.checks passing);
          counted = all-All has_counts step.checks counted;
        })
]

pub enter-state :
    (t : State) (policy : TaskPolicy) (run next : Run) (step : Step)
    → enter t policy run step ≡ ok next
    → next.state ≡ t
unfolding enter
enter-state pending policy run next step h = ground arith
enter-state admitted policy run next step h = ground arith
enter-state running policy run next step h = ground arith
enter-state validating policy run next step h = ground arith
enter-state repairing policy run next step h = ground arith
enter-state blocked policy run next step h = ground arith
enter-state failed_state policy run next step h = ground arith
enter-state completed policy run next step h = ground arith

-- A run that a transition completes has a frozen candidate without scope violations, and its
-- observations are valid, about that candidate and no other, by different checks that include the
-- required ones, all passed, with no skips but the allowed ones, and with counts where they are
-- asked for.
pub transition-IsProven :
    (policy : TaskPolicy) (run next : Run) (step : Step)
    → transition policy run step ≡ ok next
    → next.state ≡ completed
    → IsProven policy next
unfolding transition
transition-IsProven policy run next step h c =
    let entered : enter step.target policy run step ≡ ok next = ground (arith, h) in
    let target : step.target ≡ completed =
      sym (enter-state step.target policy run next step entered) ∙ c in
    enter-IsProven policy run next step
      (subst (λ (t : State). enter t policy run step ≡ ok next) target entered)
