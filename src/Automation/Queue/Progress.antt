-- ===== src/Automation/Queue/Progress.antt =====
-- tools/task_automation/queue.py: what no history of calls can undo.
use night_recon.Prelude.{
  Option, Option-cases, String, ap, arith, false, inl, inr, ok, refl, true, ℕ, ◌+◌, ◌∙◌, ◌≡◌, ◌≤◌,
}
use night_recon.Automation.Runs.{blocked}
use night_recon.Automation.Queue.Objectives.{
  Changes, Objective, apply_changes, check_changes, is_final,
}
use night_recon.Automation.Queue.Leases.{claimed}

-- within what the approval allows
pub record Within (r : Objective) : Type 0 where
  pub attempts : r.attempts ≤ r.approval.limits.max_attempts
  pub tokens : r.reserved_tokens ≤ r.approval.limits.max_tokens
  pub cost : r.reserved_cost_microusd ≤ r.approval.limits.max_cost_microusd

-- How a later record of an objective relates to an earlier one.
pub record Later (r q : Objective) : Type 0 where
  pub approval : q.approval ≡ r.approval
  pub deadline : q.deadline ≡ r.deadline
  pub generation : r.lease_generation ≤ q.lease_generation
  pub version : r.version ≤ q.version
  pub attempts : r.attempts ≤ q.attempts
  pub tokens : r.reserved_tokens ≤ q.reserved_tokens
  pub cost : r.reserved_cost_microusd ≤ q.reserved_cost_microusd
  pub within : Within r → Within q
  pub final : is_final r.state ≡ true → q ≡ r
  pub changed : q.version ≡ r.version → q ≡ r

pub Later-refl : (r : Objective) → Later r r
Later-refl r = record {
  approval = refl;
  deadline = refl;
  generation = omega arith;
  version = omega arith;
  attempts = omega arith;
  tokens = omega arith;
  cost = omega arith;
  within = λ w. w;
  final = λ f. refl;
  changed = λ v. refl;
}

pub Later-trans : (r q o : Objective) → Later r q → Later q o → Later r o
Later-trans r q o a b = record {
  approval = b.approval ∙ a.approval;
  deadline = b.deadline ∙ a.deadline;
  generation = omega (arith, a.generation, b.generation);
  version = omega (arith, a.version, b.version);
  attempts = omega (arith, a.attempts, b.attempts);
  tokens = omega (arith, a.tokens, b.tokens);
  cost = omega (arith, a.cost, b.cost);
  within = λ w. b.within (a.within w);
  final = λ f. b.final (ap (λ (x : Objective). is_final x.state) (a.final f) ∙ f) ∙ a.final f;
  changed = λ v.
      b.changed (omega (arith, v, a.version, b.version))
      ∙ a.changed (omega (arith, v, a.version, b.version));
}

pub claimed-Later :
    (worker : String) (now lease_seconds : ℕ) (r : Objective)
    → is_final r.state ≡ false
    → Later r (claimed worker now lease_seconds r)
unfolding claimed
claimed-Later worker now lease_seconds r open_state = elim (Option-cases r.intent) [
  | inl n ↦ record {
    approval = ground (arith, n);
    deadline = ground (arith, n);
    generation = ground (arith, n);
    version = ground (arith, n);
    attempts = ground (arith, n);
    tokens = ground (arith, n);
    cost = ground (arith, n);
    within = λ w. record {
      attempts = ground (arith, n, w.attempts);
      tokens = ground (arith, n, w.tokens);
      cost = ground (arith, n, w.cost);
    };
    final = λ x. absurd (ground (arith, x, open_state));
    changed = λ v. absurd (ground (arith, n, v));
  }
  | inr (i, f) ↦ record {
    approval = ground (arith, f);
    deadline = ground (arith, f);
    generation = ground (arith, f);
    version = ground (arith, f);
    attempts = ground (arith, f);
    tokens = ground (arith, f);
    cost = ground (arith, f);
    within = λ w. record {
      attempts = ground (arith, f, w.attempts);
      tokens = ground (arith, f, w.tokens);
      cost = ground (arith, f, w.cost);
    };
    final = λ x. absurd (ground (arith, x, open_state));
    changed = λ v. absurd (ground (arith, f, v));
  }
]

-- what a worker cannot change
apply_changes_keeps :
    (r : Objective) (c : Changes)
    → ((apply_changes r c).approval ≡ r.approval)
      × ((apply_changes r c).deadline ≡ r.deadline)
      × ((apply_changes r c).lease_generation ≡ r.lease_generation)
unfolding apply_changes
apply_changes_keeps r c = (refl, refl, refl)

pub update-Later :
    (r : Objective) (changes : Changes)
    → is_final r.state ≡ false
    → check_changes r (apply_changes r changes) ≡ ok tt
    → Later r (record (apply_changes r changes) { version = r.version + 1 })
unfolding check_changes
update-Later r changes open_state h =
    let (a, d, g) = apply_changes_keeps r changes in
    record {
      approval = a;
      deadline = d;
      generation = omega (arith, g);
      version = omega arith;
      attempts = ground (arith, h);
      tokens = ground (arith, h);
      cost = ground (arith, h);
      within = λ w. record {
        attempts = ground (arith, h, a);
        tokens = ground (arith, h, a);
        cost = ground (arith, h, a);
      };
      final = λ f. absurd (ground (arith, f, open_state));
      changed = λ v. absurd (omega (arith, v));
    }

pub expired-Later :
    (r : Objective) (why : Option String)
    → is_final r.state ≡ false
    → Later r (record r { state = blocked; reason = why; version = r.version + 1 })
expired-Later r why open_state = record {
  approval = refl;
  deadline = refl;
  generation = omega arith;
  version = omega arith;
  attempts = omega arith;
  tokens = omega arith;
  cost = omega arith;
  within = λ w. record { attempts = w.attempts; tokens = w.tokens; cost = w.cost };
  final = λ f. absurd (ground (arith, f, open_state));
  changed = λ v. absurd (omega (arith, v));
}
