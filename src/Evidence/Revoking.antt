-- ===== src/Evidence/Revoking.antt =====
-- workspace.py: what `revoke_execution` means for every later `authorize_action`.
use night_recon.Prelude.{
  Bool, Bool-cases, List, Result-cases, String, all, ap, arith, bool_Eq, false, get, inl, inr,
  list_Eq, nat_Eq, ok, option_Eq, pair_Eq, some, string_Eq, true, ◌&&◌, ◌∙◌, ◌≡◌,
}
use night_recon.Evidence.Store.{has_engagement}
use night_recon.Evidence.Authorizing.{
  LocalWorkspace, after_action, authorize_action, decide, of_policy, raised_by, revoke_execution,
  spend,
}
use night_recon.Evidence.Spending.{
  allowed-IsPermitted, append_authorization_audit-ok, decide-IsDecided, raised_by-ok,
}
use night_recon.Policy.{ActionRequest, AuthorizationDecision, Datetime, Platform, Policy}
use night_recon.Policy.Store.{Command, PolicyStore, consume_action, revoke, revokes, run, step}
use night_recon.Policy.Store.Guarantees.{Change-IsSound, revoke-eq-ok, run-Keeps, spares}
use night_recon.Policy.Store.Changes.{IsSound, step-Change}

spend-allowed :
    (p : Platform) (written consume : Bool) (id : String) (w : LocalWorkspace)
    (d r : AuthorizationDecision)
    → (spend p written consume id d w).0 ≡ ok r
    → r.allowed ≡ d.allowed
unfolding spend raised_by after_action
spend-allowed p written consume id w d r h = elim (Bool-cases (d.allowed && consume)) [
  | inr b ↦ ground (arith, b, h)
  | inl b ↦ elim (Result-cases (consume_action p written id w.policy_store).0) [
    | inr (e, c) ↦ absurd (ground (arith, b, h, c))
    | inl (updated, c) ↦ ground (arith, b, h, c)
  ]
]

-- Where the policy is revoked, no answer is permission.
revoked_refused :
    (p : Platform) (written logged consume : Bool) (id : String) (request : ActionRequest)
    (now : Datetime) (w : LocalWorkspace) (policy : Policy) (d : AuthorizationDecision)
    → get id w.policy_store.policies ≡ some policy
    → policy.revoked ≡ true
    → (authorize_action p written logged id request consume now w).0 ≡ ok d
    → d.allowed ≡ false
unfolding authorize_action
revoked_refused p written logged consume id request now w policy d found gone h =
    elim (Result-cases (decide p id request now w)) [
      | inr (e, a) ↦ absurd (ground (arith, h, a))
      | inl (first, a) ↦
          let g = decide-IsDecided p id request now w first a in
          let (paid, whole) =
            append_authorization_audit-ok p id request now logged
              (spend p written consume id first w) d (ground (arith, h, a)) in
          let kept = spend-allowed p written consume id w first d paid in
          elim (Bool-cases first.allowed) [
            | inr b ↦ kept ∙ b
            | inl b ↦
                let (target, permitted) =
                  allowed-IsPermitted p id request now g.policy
                    (record request { engagement_status = g.status }) first g.evaluated b in
                absurd (ground (arith, permitted.stands.live, found, g.found, gone))
          ]
    ]

-- From a sound policy store: once `revoke_execution` has returned for an engagement, no answer that
-- `authorize_action` gives on it is permission, after any history of calls on the policies that
-- has no `replace_policy` of its policy, with any of their writes failing, and whatever became of the evidence and the audit.
pub revoke_execution_for_good :
    (p : Platform) (revoking : Bool) (id : String) (w later : LocalWorkspace) (q : Policy)
    (cs : List (Bool × Command))
    → IsSound w.policy_store
    → (revoke_execution p revoking id w).0 ≡ ok q
    → all (λ (x : Bool × Command). spares id x.1) cs ≡ true
    → later.policy_store ≡ run p (revoke_execution p revoking id w).1.policy_store cs
    → (written logged consume : Bool) (request : ActionRequest) (now : Datetime)
      (d : AuthorizationDecision)
    → (authorize_action p written logged id request consume now later).0 ≡ ok d
    → d.allowed ≡ false
unfolding revoke_execution step
revoke_execution_for_good p revoking id w later q cs i h k l written logged consume request now d
      a =
    elim (Bool-cases (has_engagement id w.store.memory)) [
      | inr b ↦ absurd (ground (arith, h, b))
      | inl b ↦
          let s = (revoke p revoking id w.policy_store).1 in
          let (found, gone) = revoke-eq-ok p revoking id w.policy_store q i (
            raised_by-ok of_policy (revoke p revoking id w.policy_store).0 q
              (ground (arith, h, b))) in
          let sound : IsSound s =
            Change-IsSound (step-Change p revoking (revokes id) w.policy_store i) i in
          let (new, found', follows) = run-Keeps p s cs id q sound k found in
          let kept : later.policy_store ≡ run p s cs = ground (arith, l, b) in
          revoked_refused p written logged consume id request now later new d
            (ap (λ (t : PolicyStore). get id t.policies) kept ∙ found') (follows.revoked gone) a
    ]
