-- ===== src/Policy/Store/Failures.antt =====
-- `FileEngagementPolicyStore`: a method that raises has changed nothing.
use night_recon.Prelude.{
  Bool, Option-cases, Result-cases, String, arith, bool_Eq, delete-put, get, inl, inr, list_Eq,
  nat_Eq, none, option_Eq, pair_Eq, put-get_self, raise, some, string_Eq, true, ◌+◌, ◌≡◌,
}
use night_recon.Policy.{Platform, Policy, PolicyError, post_init}
use night_recon.Policy.Store.{
  Command, PolicyStore, consume_action, consumes, find_policy, replace_checked, replace_policy,
  replaces, revoke, revokes, set_policy, sets, step,
}

set_policy-unchanged :
    (written : Bool) (policy : Policy) (s : PolicyStore) (e : PolicyError)
    → (set_policy written policy s).0 ≡ raise e
    → (set_policy written policy s).1 ≡ s
unfolding set_policy
set_policy-unchanged written policy s e h =
    elim (Option-cases (get policy.engagement_id s.policies)) [
      | inl n ↦ ground (arith, n, h, delete-put policy.engagement_id policy s.policies n)
      | inr (q, n) ↦ ground (arith, n, h)
    ]

replace_policy-unchanged :
    (written : Bool) (policy : Policy) (s : PolicyStore) (e : PolicyError)
    → (replace_policy written policy s).0 ≡ raise e
    → (replace_policy written policy s).1 ≡ s
unfolding replace_policy
replace_policy-unchanged written policy s e h =
    elim (Option-cases (get policy.engagement_id s.policies)) [
      | inl n ↦ ground (arith, n, h)
      | inr (q, n) ↦ ground (arith, n, h, put-get_self policy.engagement_id q policy s.policies n)
    ]

module _ (p : Platform) where
  replace_checked-unchanged :
      (written : Bool) (policy : Policy) (s : PolicyStore) (e : PolicyError)
      → (replace_checked p written policy s).0 ≡ raise e
      → (replace_checked p written policy s).1 ≡ s
  unfolding replace_checked
  replace_checked-unchanged written policy s e h = elim (Result-cases (post_init p policy)) [
    | inl (r, b) ↦ ground (arith, b, h, replace_policy-unchanged written r s e)
    | inr (x, b) ↦ ground (arith, b)
  ]

  revoke-unchanged :
      (written : Bool) (id : String) (s : PolicyStore) (e : PolicyError)
      → (revoke p written id s).0 ≡ raise e
      → (revoke p written id s).1 ≡ s
  unfolding revoke
  revoke-unchanged written id s e h = elim (Result-cases (find_policy id s)) [
    | inr (x, b) ↦ ground (arith, b)
    | inl (none, b) ↦ ground (arith, b)
    | inl (some q, b) ↦
        ground (arith, b, h, replace_checked-unchanged written (record q { revoked = true }) s e)
  ]

  consume_action-unchanged :
      (written : Bool) (id : String) (s : PolicyStore) (e : PolicyError)
      → (consume_action p written id s).0 ≡ raise e
      → (consume_action p written id s).1 ≡ s
  unfolding consume_action
  consume_action-unchanged written id s e h = elim (Result-cases (find_policy id s)) [
    | inr (x, b) ↦ ground (arith, b)
    | inl (none, b) ↦ ground (arith, b)
    | inl (some q, b) ↦ ground (
      arith,
      b,
      h,
      replace_checked-unchanged written (record q { actions_used = q.actions_used + 1 }) s e,
    )
  ]

  -- A call that raises, be it at a check or at the write of the file, leaves the policies in memory
  -- and those in the file as they were.
  pub step_failure_unchanged :
      (written : Bool) (c : Command) (s : PolicyStore) (e : PolicyError)
      → (step p written c s).0 ≡ raise e
      → (step p written c s).1 ≡ s
  unfolding step
  step_failure_unchanged written (sets policy) s e h = elim (Result-cases (post_init p policy)) [
    | inr (x, b) ↦ ground (arith, b)
    | inl (r, b) ↦ ground (arith, b, h, set_policy-unchanged written r s e)
  ]
  step_failure_unchanged written (replaces policy) s e h =
      elim (Result-cases (post_init p policy)) [
        | inr (x, b) ↦ ground (arith, b)
        | inl (r, b) ↦ ground (arith, b, h, replace_policy-unchanged written r s e)
      ]
  step_failure_unchanged written (revokes id) s e h =
      ground (arith, h, revoke-unchanged written id s e)
  step_failure_unchanged written (consumes id) s e h =
      ground (arith, h, consume_action-unchanged written id s e)
