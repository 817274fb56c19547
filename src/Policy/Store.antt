-- ===== src/Policy/Store.antt =====
-- engagement_policy.py, `FileEngagementPolicyStore`: the policies in memory and in the file.
-- Each method takes how its write went: `true` when the file was replaced, `false` when an exception
-- came before that. `os.replace` is atomic, so the file is the old one or the new one.
pub mod Failures
pub mod Changes
pub mod Guarantees
use night_recon.Prelude.{
  Bool, Dict, List, Option, Result, String, [], bool_Eq, bool_eq, delete, get, if◌then◌else◌, leb,
  list_Eq, list_eq, nat_Eq, none, ok, option_Eq, pair_Eq, put, raise, some, string_Eq, true, ◌&&◌,
  ◌+◌, ◌==◌, ◌>>=◌, ◌>>◌, ◌∷◌,
}
use night_recon.Policy.{
  Platform, Policy, PolicyError, budget_exhausted, not_persisted, policy_exists, policy_missing,
  post_init, required_text,
}

policy_eq : Policy → Policy → Bool
policy_eq a b =
    a.engagement_id == b.engagement_id
    && list_eq a.scope b.scope
    && a.valid_from == b.valid_from
    && a.valid_until == b.valid_until
    && a.max_actions == b.max_actions
    && list_eq a.permitted_capabilities b.permitted_capabilities
    && a.max_impact == b.max_impact
    && list_eq a.approval_required_capabilities b.approval_required_capabilities
    && bool_eq a.revoked b.revoked
    && a.actions_used == b.actions_used
    && a.schema_version == b.schema_version

pub record PolicyStore : Type 0 where
  pub policies : Dict String Policy
  pub saved : Dict String Policy

-- What a method returns or raises, and the store that it leaves.
abbrev pub Outcome : Type 0 → Type 0
Outcome A = Result PolicyError A × PolicyStore

-- `_persist`
persist : Bool → PolicyStore → Outcome (Unit {0})
persist written s =
    if written then (ok tt, record s { saved = s.policies }) else (raise not_persisted, s)

-- `policy`
unfoldable pub find_policy : String → PolicyStore → Result PolicyError (Option Policy)
find_policy engagement_id s = do required_text engagement_id; ok (get engagement_id s.policies)

insert_policy : Bool → Policy → PolicyStore → Outcome (Unit {0})
unfolding persist
insert_policy written policy s =
    let (r, t) =
      persist written (record s { policies = put policy.engagement_id policy s.policies }) in
    elim r [
      | ok _ ↦ (ok tt, t)
      | raise e ↦ (raise e, record t { policies = delete policy.engagement_id t.policies })
    ]

unfoldable pub set_policy : Bool → Policy → PolicyStore → Outcome (Unit {0})
unfolding policy_eq insert_policy
set_policy written policy s = elim (get policy.engagement_id s.policies) [
  | some existing ↦ if policy_eq existing policy then (ok tt, s) else (raise policy_exists, s)
  | none ↦ insert_policy written policy s
]

unfoldable pub replace_policy : Bool → Policy → PolicyStore → Outcome (Unit {0})
unfolding persist
replace_policy written policy s = elim (get policy.engagement_id s.policies) [
  | none ↦ (raise policy_missing, s)
  | some previous ↦
      let (r, t) =
        persist written (record s { policies = put policy.engagement_id policy s.policies }) in
      elim r [
        | ok _ ↦ (ok tt, t)
        | raise e ↦ (raise e, record t { policies = put policy.engagement_id previous t.policies })
      ]
]

-- A caller builds a policy and registers it or replaces the engagement's own by it, revokes one, or
-- consumes one of its actions.
pub data Command : Type 0 where
  sets replaces : Policy → Command
  revokes consumes : String → Command

module _ (p : Platform) where
  -- `dataclasses.replace` runs the checks of the constructor again
  replace_checked : Bool → Policy → PolicyStore → Outcome Policy
  replace_checked written policy s = elim (post_init p policy) [
    | raise e ↦ (raise e, s)
    | ok updated ↦ let (r, t) = replace_policy written updated s in (do r; ok updated, t)
  ]

  unfoldable pub revoke : Bool → String → PolicyStore → Outcome Policy
  unfolding find_policy replace_checked
  revoke written engagement_id s = elim (find_policy engagement_id s) [
    | raise e ↦ (raise e, s)
    | ok none ↦ (raise policy_missing, s)
    | ok (some policy) ↦
        if policy.revoked
        then (ok policy, s)
        else replace_checked written (record policy { revoked = true }) s
  ]

  unfoldable pub consume_action : Bool → String → PolicyStore → Outcome Policy
  unfolding find_policy replace_checked
  consume_action written engagement_id s = elim (find_policy engagement_id s) [
    | raise e ↦ (raise e, s)
    | ok none ↦ (raise policy_missing, s)
    | ok (some policy) ↦
        if leb policy.max_actions policy.actions_used
        then (raise budget_exhausted, s)
        else replace_checked written (record policy { actions_used = policy.actions_used + 1 }) s
  ]

  unfoldable pub step : Bool → Command → PolicyStore → Outcome (Unit {0})
  step written (sets policy) s = elim (post_init p policy) [
    | raise e ↦ (raise e, s)
    | ok built ↦ set_policy written built s
  ]
  step written (replaces policy) s = elim (post_init p policy) [
    | raise e ↦ (raise e, s)
    | ok built ↦ replace_policy written built s
  ]
  step written (revokes engagement_id) s =
      let (r, t) = revoke written engagement_id s in (do policy ← r; ok tt, t)
  step written (consumes engagement_id) s =
      let (r, t) = consume_action written engagement_id s in (do policy ← r; ok tt, t)

  unfoldable pub run : PolicyStore → List (Bool × Command) → PolicyStore
  run s [] = s
  run s ((written, c) ∷ cs) = run (step written c s).1 cs
