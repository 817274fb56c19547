-- ===== src/Policy/Decisions.antt =====
-- When engagement_policy.py allows an action.
use night_recon.Prelude.{
  >>=-eq-ok, Result, Result-cases, arith, inl, inr, ok, refl, true, ℕ, ◌<◌, ◌↔◌, ◌≡◌,
}
use night_recon.Authorization.{Target}
use night_recon.Policy.{
  ActionRequest, AuthorizationDecision, Datetime, Platform, Policy, PolicyError, approval_code,
  authorized, authorized_reserved_action, budget_code, check_request, decide_as, evaluate_action,
  evaluate_reserved_action, impact_code, is_allowed, scope_code, standing_code,
}
use night_recon.Policy.Codes.{
  InScope, IsApproved, Stands, WithinCeiling, approval_code-allowed, approval_code-inv,
  budget_code-allowed, budget_code-inv, impact_code-inv, impact_code-next, scope_code-inv,
  scope_code-next, standing_code-inv, standing_code-next,
}

module _ (p : Platform) (policy : Policy) (request : ActionRequest) where
  -- What a fresh action needs.
  pub record IsPermitted (target : Target) (now : ℕ) : Type 0 where
    pub stands : Stands p policy request now
    pub ceiling : WithinCeiling p policy request
    pub scope : InScope p policy request target
    pub budget : policy.actions_used < policy.max_actions
    pub approved : IsApproved p policy request

  -- What an action that already took its place in the budget needs.
  pub record IsStillPermitted (target : Target) (now : ℕ) : Type 0 where
    pub stands : Stands p policy request now
    pub scope : InScope p policy request target
    pub approved : IsApproved p policy request

  abbrev pub Allows : Result PolicyError AuthorizationDecision → Type 0
  Allows r = (d : AuthorizationDecision) × (r ≡ ok d) × (d.allowed ≡ true)

  module _ (now : Datetime) (target : Target)
      (checked : check_request p request now ≡ ok target) where
    evaluate_action_sound :
        Allows (evaluate_action p policy request now) → IsPermitted target now.instant
    unfolding evaluate_action decide_as
    evaluate_action_sound (d, e, a) =
        let (code, c, e') =
          >>=-eq-ok
            (standing_code p policy request now.instant (
              impact_code p policy request
                (scope_code p policy target (budget_code policy request))))
            (λ k. ok (decide_as policy request target k)) {y = d} (ground (arith, checked, e)) in
        let allowed : is_allowed code ≡ true = ground (arith, e', a) in
        let (stands, c1) = standing_code-inv p policy request now.instant _ code c allowed in
        let (ceiling, c2) = impact_code-inv p policy request _ code c1 allowed in
        let (scope, c3) = scope_code-inv p policy request target _ code c2 allowed in
        let (budget, approved) = budget_code-inv p policy request (ground (arith, c3, allowed)) in
        record {
          stands = stands;
          ceiling = ceiling;
          scope = scope;
          budget = budget;
          approved = approved;
        }

    evaluate_action_complete :
        IsPermitted target now.instant → Allows (evaluate_action p policy request now)
    unfolding evaluate_action decide_as is_allowed
    evaluate_action_complete h = (
      decide_as policy request target authorized,
      ground (
        arith,
        checked,
        standing_code-next p policy request now.instant
            (impact_code p policy request (scope_code p policy target (budget_code policy request)))
            h.stands,
        impact_code-next p policy request (scope_code p policy target (budget_code policy request))
            h.ceiling,
        scope_code-next p policy request target (budget_code policy request) h.scope,
        budget_code-allowed p policy request h.budget h.approved,
      ),
      refl,
    )

    evaluate_reserved_sound :
        Allows (evaluate_reserved_action p policy request now) → IsStillPermitted target now.instant
    unfolding evaluate_reserved_action decide_as
    evaluate_reserved_sound (d, e, a) =
        let (code, c, e') =
          >>=-eq-ok
            (standing_code p policy request now.instant (
              scope_code p policy target (approval_code policy request authorized_reserved_action)))
            (λ k. ok (decide_as policy request target k)) {y = d} (ground (arith, checked, e)) in
        let allowed : is_allowed code ≡ true = ground (arith, e', a) in
        let (stands, c1) = standing_code-inv p policy request now.instant _ code c allowed in
        let (scope, c3) = scope_code-inv p policy request target _ code c1 allowed in
        record {
          stands = stands;
          scope = scope;
          approved = approval_code-inv p policy request (ground (arith, c3, allowed));
        }

    evaluate_reserved_complete :
        IsStillPermitted target now.instant → Allows (evaluate_reserved_action p policy request now)
    unfolding evaluate_reserved_action decide_as is_allowed
    evaluate_reserved_complete h = (
      decide_as policy request target authorized_reserved_action,
      ground (
        arith,
        checked,
        standing_code-next p policy request now.instant
            (scope_code p policy target (approval_code policy request authorized_reserved_action))
            h.stands,
        scope_code-next p policy request target
            (approval_code policy request authorized_reserved_action) h.scope,
        approval_code-allowed p policy request h.approved,
      ),
      refl,
    )

  -- Once the request and the time pass their own checks, `evaluate_action` allows the action exactly
  -- if the engagement is active, the policy is live, in its window and grants the capability, the
  -- impact is within the ceiling, the target in scope, the budget not used up, and the approval
  -- given where one is needed.
  pub evaluate_action_iff :
      (now : Datetime) (target : Target)
      → check_request p request now ≡ ok target
      → Allows (evaluate_action p policy request now) ↔ IsPermitted target now.instant
  evaluate_action_iff now target c =
      (evaluate_action_sound now target c, evaluate_action_complete now target c)

  -- Under the same condition `evaluate_reserved_action` allows the action exactly if the engagement
  -- is active, the policy is live, in its window and grants the capability, the target is in scope,
  -- and the approval is given where one is needed: neither the budget nor the ceiling counts.
  pub evaluate_reserved_action_iff :
      (now : Datetime) (target : Target)
      → check_request p request now ≡ ok target
      → Allows (evaluate_reserved_action p policy request now) ↔ IsStillPermitted target now.instant
  evaluate_reserved_action_iff now target c =
      (evaluate_reserved_sound now target c, evaluate_reserved_complete now target c)

  -- what an allowed action implies, its request's own checks included
  pub evaluate_action-IsPermitted :
      (now : Datetime)
      → Allows (evaluate_action p policy request now)
      → (target : Target) × (check_request p request now ≡ ok target)
        × IsPermitted target now.instant
  unfolding evaluate_action
  evaluate_action-IsPermitted now a = elim (Result-cases (check_request p request now)) [
    | inl (target, c) ↦ (target, c, evaluate_action_sound now target c a)
    | inr (e, c) ↦ absurd (ground (arith, c, a.1))
  ]
