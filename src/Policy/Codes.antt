-- ===== src/Policy/Codes.antt =====
-- The tests of engagement_policy.py one by one: what each asks, stated apart from the code.
use night_recon.Prelude.{
  Bool-cases, List, Option-cases, Result, Result-cases, arith, bool_Eq, contains, eq_of_beq, false,
  inl, inr, list_Eq, nat_Eq, ok, option_Eq, option_eq_iff, pair_Eq, some, string_Eq, true, ℕ, ◌<◌,
  ◌==◌, ◌≡◌, ◌≤◌,
}
use night_recon.Authorization.{Target, address_Eq, is_authorized, scope_from_values}
use night_recon.Policy.{
  ActionRequest, Platform, Policy, PolicyError, ReasonCode, approval_code, authorized,
  authorized_reserved_action, budget_code, from_target, impact_code, impact_rank, is_allowed,
  needs_approval, parse_time, scope_code, standing_code,
}

module _ (p : Platform) (policy : Policy) (request : ActionRequest) where
  -- The engagement is active, its policy is live and in its window, and grants the capability.
  pub record Stands (now : ℕ) : Type 0 where
    pub active : request.engagement_status ≡ some "active"
    pub live : policy.revoked ≡ false
    pub start : ℕ
    pub start_read : parse_time p policy.valid_from ≡ ok start
    pub started : start ≤ now
    pub end : ℕ
    pub end_read : parse_time p policy.valid_until ≡ ok end
    pub lasting : now ≤ end
    pub permitted : contains request.capability policy.permitted_capabilities ≡ true

  pub record WithinCeiling : Type 0 where
    pub asked : ℕ
    pub asked_rank : impact_rank request.impact ≡ some asked
    pub ceiling : ℕ
    pub ceiling_rank : impact_rank policy.max_impact ≡ some ceiling
    pub within : asked ≤ ceiling

  pub record InScope (target : Target) : Type 0 where
    pub rules : List Target
    pub rules_read : scope_from_values p.ip policy.scope ≡ ok rules
    pub inside : is_authorized p.ip rules target ≡ ok true

  -- An action of high impact, or of a capability that the policy marks for it, has its approval.
  pub record IsApproved : Type 0 where
    pub high : request.impact ≡ "high" → request.approval_present ≡ true
    pub marked :
        contains request.capability policy.approval_required_capabilities ≡ true
        → request.approval_present ≡ true

  present-IsApproved :
      (needs_approval policy request ≡ true → request.approval_present ≡ true) → IsApproved
  unfolding needs_approval
  present-IsApproved h = record {
    high = λ i. h (ground (arith, i, string_Eq.equal_iff request.impact "high"));
    marked = λ c. h (ground (arith, c));
  }

  IsApproved-present :
      IsApproved → needs_approval policy request ≡ true → request.approval_present ≡ true
  unfolding needs_approval
  IsApproved-present a n = elim (Bool-cases (request.impact == "high")) [
    | inl b ↦ a.high (eq_of_beq request.impact "high" b)
    | inr b ↦ a.marked (ground (arith, n, b))
  ]

  pub standing_code-inv :
      (now : ℕ) (next : Result PolicyError ReasonCode) (code : ReasonCode)
      → standing_code p policy request now next ≡ ok code
      → is_allowed code ≡ true
      → Stands now × (next ≡ ok code)
  unfolding standing_code is_allowed
  standing_code-inv now next code h a = elim (Result-cases (parse_time p policy.valid_from)) [
    | inr (x, e) ↦ absurd (ground (arith, e, h, a))
    | inl (s, e) ↦ elim (Result-cases (parse_time p policy.valid_until)) [
      | inr (x, e') ↦ absurd (ground (arith, e, e', h, a))
      | inl (t, e') ↦ (
        record {
          active = ground (arith, option_eq_iff request.engagement_status (some "active"), h, a);
          live = ground (arith, h, a);
          start = s;
          start_read = e;
          started = ground (arith, e, h, a);
          end = t;
          end_read = e';
          lasting = ground (arith, e, e', h, a);
          permitted = ground (arith, e, e', h, a);
        },
        ground (arith, e, e', h, a),
      )
    ]
  ]

  pub standing_code-next :
      (now : ℕ) (next : Result PolicyError ReasonCode)
      → Stands now
      → standing_code p policy request now next ≡ next
  unfolding standing_code
  standing_code-next now next s =
      ground (arith, string_Eq.equal_iff "active" "active", s.active, s.start_read, s.end_read)

  pub impact_code-inv :
      (next : Result PolicyError ReasonCode) (code : ReasonCode)
      → impact_code p policy request next ≡ ok code
      → is_allowed code ≡ true
      → WithinCeiling × (next ≡ ok code)
  unfolding impact_code is_allowed
  impact_code-inv next code h a = elim (Option-cases (impact_rank request.impact)) [
    | inl e ↦ absurd (ground (arith, e, h))
    | inr (n, e) ↦ elim (Option-cases (impact_rank policy.max_impact)) [
      | inl e' ↦ absurd (ground (arith, e, e', h))
      | inr (m, e') ↦ (
        record {
          asked = n;
          asked_rank = e;
          ceiling = m;
          ceiling_rank = e';
          within = ground (arith, e, e', h, a);
        },
        ground (arith, e, e', h, a),
      )
    ]
  ]

  pub impact_code-next :
      (next : Result PolicyError ReasonCode)
      → WithinCeiling
      → impact_code p policy request next ≡ next
  unfolding impact_code
  impact_code-next next w = ground (arith, w.asked_rank, w.ceiling_rank)

  pub scope_code-inv :
      (target : Target) (next code : ReasonCode)
      → scope_code p policy target next ≡ ok code
      → is_allowed code ≡ true
      → InScope target × (next ≡ code)
  unfolding scope_code is_allowed from_target
  scope_code-inv target next code h a = elim (Result-cases (scope_from_values p.ip policy.scope)) [
    | inr (x, e) ↦ absurd (ground (arith, e, h))
    | inl (rules, e) ↦ elim (Result-cases (is_authorized p.ip rules target)) [
      | inr (x, e') ↦ absurd (ground (arith, e, e', h))
      | inl (b, e') ↦ (
        record { rules = rules; rules_read = e; inside = ground (arith, e, e', h, a) },
        ground (arith, e, e', h, a),
      )
    ]
  ]

  pub scope_code-next :
      (target : Target) (next : ReasonCode)
      → InScope target
      → scope_code p policy target next ≡ ok next
  unfolding scope_code from_target
  scope_code-next target next s = rw (s.rules_read, s.inside)

  pub budget_code-inv :
      is_allowed (budget_code policy request) ≡ true
      → (policy.actions_used < policy.max_actions) × IsApproved
  unfolding budget_code is_allowed
  budget_code-inv a = (ground (arith, a), present-IsApproved (λ n. ground (arith, a, n)))

  pub budget_code-allowed :
      policy.actions_used < policy.max_actions
      → IsApproved
      → budget_code policy request ≡ authorized
  unfolding budget_code
  budget_code-allowed b a = elim (Bool-cases (needs_approval policy request)) [
    | inl n ↦ ground (arith, b, IsApproved-present a n, n)
    | inr n ↦ ground (arith, b, n)
  ]

  pub approval_code-inv :
      is_allowed (approval_code policy request authorized_reserved_action) ≡ true → IsApproved
  unfolding approval_code is_allowed
  approval_code-inv a = present-IsApproved (λ n. ground (arith, a, n))

  pub approval_code-allowed :
      IsApproved
      → approval_code policy request authorized_reserved_action ≡ authorized_reserved_action
  unfolding approval_code
  approval_code-allowed a = elim (Bool-cases (needs_approval policy request)) [
    | inl n ↦ ground (arith, IsApproved-present a n, n)
    | inr n ↦ ground (arith, n)
  ]
