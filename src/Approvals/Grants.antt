-- ===== src/Approvals/Grants.antt =====
-- approval_engine.py: what a grant and its match with an action guarantee.
use night_recon.Prelude.{
  Bool-cases, List, Option-cases, Result-cases, String, arith, bool_Eq, eq_of_beq, get_elem?, inl,
  inr, length, length-sorted, length-take, list_Eq, nat_Eq, ok, option_Eq, pair_Eq, refl, some,
  str_leb, string_Eq, sym, take, true, unique, unique-sorted, ℕ, ◌-◌, ◌∙◌, ◌≡◌, ◌≤◌,
}
use night_recon.Approvals.Records.{
  ApprovalEvent, ApprovalGrant, ApprovalRequest, Moment, sorted_unique,
}
use night_recon.Approvals.Payload.{Services}
use night_recon.Approvals.History.{
  Status, Workflow, approved_state, expired, is_approved_state, iso8601, pending, rejected_state,
  revoked_state,
}
use night_recon.Approvals.Replay.{build}
use night_recon.Approvals.Status.{approval_events, status}
use night_recon.Approvals.Checks.{check_grant}
use night_recon.Approvals.Grant.{Binding, bound_to, draft_grant, grant, grant_matches}
use night_recon.Approvals.Standing.{
  HasQuorum, length-map, status-HasQuorum, status-eq, status_of-approved,
}
use night_recon.Authorization.{Target, address_Eq, parse_target}

approved-only : (st : Status) → is_approved_state st ≡ true → st ≡ approved_state
unfolding is_approved_state
approved-only pending h = cc
approved-only approved_state h = refl
approved-only rejected_state h = cc
approved-only revoked_state h = cc
approved-only expired h = cc

module _ (services : Services) where
  -- The action and the request are about the same thing.
  pub record Covers (b : Binding) (w : Workflow) : Type 0 where
    pub engagement : b.engagement_id ≡ w.request.engagement_id
    pub bundle : b.policy_bundle_fingerprint ≡ w.request.policy_bundle_fingerprint
    pub capability : b.capability ≡ w.request.capability
    pub impact : b.impact ≡ w.request.impact
    pub target : Target
    pub target_read : parse_target services.platform.ip b.target ≡ ok target
    pub target_value : target.value ≡ w.request.target

  bound_to-Covers :
      (w : Workflow) (g : ApprovalGrant) (b : Binding) (t : Target) (at : ℕ)
      → parse_target services.platform.ip b.target ≡ ok t
      → bound_to services w g b t.value at ≡ true
      → Covers b w
  unfolding bound_to
  bound_to-Covers w g b t at r h = record {
    engagement = eq_of_beq b.engagement_id w.request.engagement_id (ground arith);
    bundle =
        eq_of_beq b.policy_bundle_fingerprint w.request.policy_bundle_fingerprint (ground arith);
    capability = eq_of_beq b.capability w.request.capability (ground arith);
    impact = eq_of_beq b.impact w.request.impact (ground arith);
    target = t;
    target_read = r;
    target_value = eq_of_beq t.value w.request.target (ground arith);
  }

  -- A grant matches an action only where, at the time asked for, the workflow has its quorum and is
  -- not expired, revoked or rejected, and the engagement, the policy bundle, the capability, the
  -- impact and the target of the action are those of the request.
  pub grant_matches-HasQuorum :
      (request : ApprovalRequest) (events : List ApprovalEvent) (w : Workflow) (g : ApprovalGrant)
      (b : Binding) (moment : String)
      → 1 ≤ request.policy.required_approvals
      → build services request events ≡ ok w
      → grant_matches services g b moment w ≡ ok true
      → (at : Moment) × (iso8601 services.platform moment ≡ ok at)
        × (status at w ≡ approved_state)
        × HasQuorum services at w
        × Covers b w
  unfolding grant_matches
  grant_matches-HasQuorum request events w g b moment n built h =
      elim (Result-cases (iso8601 services.platform moment)) [
        | inr (x, r) ↦ absurd (ground (arith, r, h))
        | inl (at, r) ↦ elim (Result-cases (parse_target services.platform.ip b.target)) [
          | inr (x, t) ↦ absurd (ground (arith, r, t, h))
          | inl (target, t) ↦ elim (Bool-cases (is_approved_state (status at w))) [
            | inr a ↦ absurd (ground (arith, r, t, a, h))
            | inl a ↦ elim (Result-cases (grant services moment w)) [
              | inr (x, e) ↦ absurd (ground (arith, r, t, a, e, h))
              | inl (expected, e) ↦
                  let st = approved-only (status at w) a in
                  (
                    at,
                    r,
                    st,
                    status-HasQuorum services request events w at n built st,
                    bound_to-Covers w g b target at.instant t (ground (arith, r, t, a, e, h)),
                  )
            ]
          ]
        ]
      ]

  check_grant-length :
      (draft g : ApprovalGrant)
      → check_grant services.platform draft ≡ ok g
      → (length g.approver_ids ≡ length draft.approver_ids) × (unique g.approver_ids ≡ true)
  unfolding check_grant sorted_unique
  check_grant-length draft g h = (
    ground (arith, length-sorted str_leb draft.approver_ids),
    ground (arith, unique-sorted str_leb draft.approver_ids),
  )

  -- A grant names exactly as many principals as approvals are required, and no one twice.
  pub grant-approver_ids :
      (w : Workflow) (g : ApprovalGrant) (moment : String)
      → grant services moment w ≡ ok g
      → (length g.approver_ids ≡ w.request.policy.required_approvals)
        × (unique g.approver_ids ≡ true)
  unfolding grant draft_grant
  grant-approver_ids w g moment h = elim (Result-cases (iso8601 services.platform moment)) [
    | inr (x, r) ↦ absurd (ground (arith, r, h))
    | inl (at, r) ↦ elim (Bool-cases (is_approved_state (status at w))) [
      | inr a ↦ absurd (ground (arith, r, a, h))
      | inl a ↦
          let n = w.request.policy.required_approvals in
          let es = approval_events (some at.instant) w in
          let full : n ≤ length es = ground (
            arith,
            status_of-approved _ _ _ _ (sym (status-eq at w) ∙ approved-only (status at w) a),
          ) in
          elim (Option-cases (get_elem? es (n - 1))) [
            | inl o ↦ absurd (ground (arith, r, a, o, h))
            | inr (last, o) ↦
                let (len, distinct) =
                  check_grant-length (draft_grant services at w last.occurred_at) g
                    (ground (arith, r, a, o, h)) in
                (
                  len
                      ∙ length-map (λ (e : ApprovalEvent). e.actor_id) (take n es)
                      ∙ length-take n es full,
                  distinct,
                )
          ]
    ]
  ]
