-- ===== src/Tests/Policies.antt =====
-- engagement_policy.py on concrete policies.
use night_recon.Prelude.{
  Bool, List, [], all, arith, bool_Eq, contains, false, get, is_space, list_Eq, lower, matches,
  nat_Eq, ok, option_Eq, pair_Eq, put, raise, refl, some, string_Eq, strip, subset, trimmed, true,
  unique, ◌↔◌, ◌∷◌, ◌≡◌,
}
use night_recon.Authorization.{
  Target, address_Eq, address_type, in_network, ipv4, is_authorized, matches_rule, parse_target,
  scope_from_values,
}
use night_recon.Policy.{
  ActionRequest, Datetime, Policy, authorized, budget_code, check_capabilities, check_permissions,
  check_request, check_window, decide_as, evaluate_action, evaluate_reserved_action, from_target,
  impact_code, impact_rank, is_capability, iso8601, no_timezone, not_persisted, parse_time,
  post_init, required_text, scope_code, standing_code,
}
use night_recon.Policy.Decisions.{
  Allows, IsPermitted, IsStillPermitted, evaluate_action_iff, evaluate_reserved_action_iff,
}
use night_recon.Policy.Store.{
  Command, PolicyStore, consume_action, consumes, replace_policy, replaces, revoke, revokes, run,
  set_policy, sets, step,
}
use night_recon.Policy.Store.Changes.{IsSound}
use night_recon.Policy.Store.Guarantees.{Keeps, run-IsSound, run-Keeps}
use night_recon.Policy.Store.Failures.{step_failure_unchanged}
use night_recon.Tests.Platforms.{known}

-- what a run of the policy's code unfolds
unfoldable pub policy_code : Unit {0}
unfolding consume_action revoke step replace_policy set_policy get put evaluate_action check_request
    standing_code impact_code scope_code budget_code post_init check_window check_permissions
    check_capabilities iso8601 parse_time required_text is_capability impact_rank from_target
    scope_from_values parse_target is_authorized matches_rule in_network address_type trimmed strip
    lower matches unique all contains subset is_space
policy_code = tt

abbrev pub lab_policy : Policy
lab_policy = record {
  engagement_id = "eng-1";
  scope = "10.0.0.0/8" ∷ [];
  valid_from = "2026-01-01T00:00:00Z";
  valid_until = "2026-12-31T00:00:00Z";
  max_actions = 2;
  permitted_capabilities = "scan.tcp" ∷ "probe.http" ∷ [];
  max_impact = "standard";
  approval_required_capabilities = "probe.http" ∷ [];
  revoked = false;
  actions_used = 1;
  schema_version = 1;
}

abbrev pub scan : ActionRequest
scan = record {
  engagement_status = some "active";
  capability = "scan.tcp";
  target = "10.1.0.7";
  impact = "low";
  approval_present = false;
}

abbrev pub noon : Datetime
noon = record { instant = 5000; aware = true }

abbrev pub box : Target
box = record { value = "10.1.0.7"; target_type = ipv4 }

lab_policy_built : post_init known lab_policy ≡ ok lab_policy
unfolding policy_code
lab_policy_built = refl

naive_end :
    check_window known (record lab_policy { valid_until = "2026-12-31" }) ≡ raise no_timezone
unfolding policy_code
naive_end = refl

scan_checked : check_request known scan noon ≡ ok box
unfolding policy_code
scan_checked = refl

evaluate_action_iff_example :
    Allows known lab_policy scan (evaluate_action known lab_policy scan noon)
    ↔ IsPermitted known lab_policy scan box 5000
evaluate_action_iff_example = evaluate_action_iff known lab_policy scan noon box scan_checked

evaluate_reserved_action_iff_example :
    Allows known lab_policy scan (evaluate_reserved_action known lab_policy scan noon)
    ↔ IsStillPermitted known lab_policy scan box 5000
evaluate_reserved_action_iff_example =
    evaluate_reserved_action_iff known lab_policy scan noon box scan_checked

scan_allowed :
    evaluate_action known lab_policy scan noon ≡ ok (decide_as lab_policy scan box authorized)
unfolding policy_code
scan_allowed = refl

abbrev pub lab_store : PolicyStore
lab_store = record { policies = ("eng-1", lab_policy) ∷ []; saved = ("eng-1", lab_policy) ∷ [] }

pub lab_store-IsSound : IsSound lab_store
lab_store-IsSound = ((refl, omega arith), tt)

abbrev other_policy : Policy
other_policy = record lab_policy { engagement_id = "eng-2" }

abbrev calls : List (Bool × Command)
calls =
    (true, sets other_policy)
    ∷ (true, consumes "eng-1")
    ∷ (true, replaces (record other_policy { max_actions = 7; actions_used = 0 }))
    ∷ (false, revokes "eng-1")
    ∷ (true, consumes "eng-1")
    ∷ []

-- the caller of `replace_policy` may give actions back
replaced_by_caller :
    (run known lab_store ((true, replaces (record lab_policy { actions_used = 0 })) ∷ [])).policies
    ≡ ("eng-1", record lab_policy { actions_used = 0 }) ∷ []
unfolding policy_code run
replaced_by_caller = refl

step_failure_unchanged_example : (step known false (revokes "eng-1") lab_store).1 ≡ lab_store
unfolding policy_code
step_failure_unchanged_example =
    step_failure_unchanged known false (revokes "eng-1") lab_store not_persisted refl

run-IsSound_example :
    IsSound (run known lab_store calls)
    × ((run known lab_store calls).saved ≡ (run known lab_store calls).policies)
run-IsSound_example = run-IsSound known lab_store calls lab_store-IsSound refl

run-Keeps_example : Keeps "eng-1" lab_policy (run known lab_store calls)
unfolding get all
run-Keeps_example = run-Keeps known lab_store calls "eng-1" lab_policy lab_store-IsSound refl refl
