-- ===== src/Tests/Permits.antt =====
-- workspace.py, `authorize_action`, on an active engagement and its policy.
use night_recon.Prelude.{Result, [], all, ap, false, ok, refl, true, ◌∷◌, ◌≡◌}
use night_recon.Policy.{AuthorizationDecision, Policy, authorization_revoked, authorized, decide_as}
use night_recon.Evidence.Authorizing.{
  LocalWorkspace, WorkspaceError, after_action, append_authorization_audit, authorize_action,
  decide, execution_policy, raised_by, revoke_execution, spend,
}
use night_recon.Evidence.Spending.{IsAnswered, authorize_action-IsAnswered}
use night_recon.Evidence.Revoking.{revoke_execution_for_good}
use night_recon.Policy.Store
use night_recon.Tests.Platforms.{known}
use night_recon.Tests.Policies.{
  box, lab_policy, lab_store, lab_store-IsSound, noon, policy_code, scan,
}
use night_recon.Tests.Workspaces.{active_about, filled, workspace_code}

abbrev site : LocalWorkspace
site = record {
  store = record {
    memory = record filled { metadata = ("eng-1", active_about) ∷ [] };
    saved = filled;
  };
  policy_store = lab_store;
  audit = [];
}

abbrev answer : AuthorizationDecision
answer = record (decide_as lab_policy scan box authorized) {
  actions_used = 2;
  remaining_actions = 0;
}

scan_spent : (authorize_action known true true "eng-1" scan true noon site).0 ≡ ok answer
unfolding workspace_code policy_code authorize_action decide execution_policy raised_by
    append_authorization_audit spend decide_as after_action
scan_spent = refl

-- the action is taken although its line of the audit is not written
scan_not_logged :
    (authorize_action known true false "eng-1" scan true noon site).1.policy_store.policies
    ≡ ("eng-1", record lab_policy { actions_used = 2 }) ∷ []
unfolding workspace_code policy_code authorize_action decide execution_policy raised_by
    append_authorization_audit spend decide_as
scan_not_logged = refl

authorize_action-IsAnswered_example :
    IsAnswered known "eng-1" scan noon true site
      (authorize_action known true true "eng-1" scan true noon site).1
      answer
authorize_action-IsAnswered_example =
    authorize_action-IsAnswered known "eng-1" scan noon true true true site answer lab_store-IsSound
      scan_spent

abbrev revoked_policy : Policy
revoked_policy = record lab_policy { revoked = true }

abbrev revoked_site : LocalWorkspace
revoked_site = record site {
  policy_store = record {
    policies = ("eng-1", revoked_policy) ∷ [];
    saved = ("eng-1", revoked_policy) ∷ [];
  };
}

site_revoked : revoke_execution known true "eng-1" site ≡ (ok revoked_policy, revoked_site)
unfolding workspace_code policy_code revoke_execution raised_by
site_revoked = refl

-- later, with an action consumed all the same
abbrev later_policy : Policy
later_policy = record revoked_policy { actions_used = 2 }

abbrev later_site : LocalWorkspace
later_site = record site {
  policy_store = record {
    policies = ("eng-1", later_policy) ∷ [];
    saved = ("eng-1", later_policy) ∷ [];
  };
}

abbrev refusal : AuthorizationDecision
refusal = decide_as later_policy scan box authorization_revoked

scan_refused : (authorize_action known true true "eng-1" scan true noon later_site).0 ≡ ok refusal
unfolding workspace_code policy_code authorize_action decide execution_policy raised_by
    append_authorization_audit spend decide_as
scan_refused = refl

site_policy_revoked : (revoke_execution known true "eng-1" site).0 ≡ ok revoked_policy
site_policy_revoked = ap (λ (r : Result WorkspaceError Policy × LocalWorkspace). r.0) site_revoked

site_left :
    later_site.policy_store
    ≡ Store.run known
        (revoke_execution known true "eng-1" site).1.policy_store
        ((true, Store.consumes "eng-1") ∷ [])
unfolding workspace_code policy_code revoke_execution Store.run Store.step
site_left = refl

revoke_execution_for_good_example : refusal.allowed ≡ false
unfolding all
revoke_execution_for_good_example =
    revoke_execution_for_good known true "eng-1" site later_site revoked_policy
      ((true, Store.consumes "eng-1") ∷ []) lab_store-IsSound site_policy_revoked refl site_left
      true true true scan noon refusal scan_refused
