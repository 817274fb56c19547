-- ===== src/Approvals/Sources.antt =====
-- approval_engine.py: whose authority a decision or a delegation in the history draws on.
use mathlib.Core.Path.{subst}
use night_recon.Prelude.{
  All, All-append, Bool-cases, List, Option, Option-cases, Result-cases, String, [], arith, bool_Eq,
  contains, false, inl, inr, list_Eq, nat_Eq, none, not, ok, option_Eq, option_eq_iff, pair_Eq,
  reverse, some, string_Eq, true, ℕ, ◌&&◌, ◌==◌, ◌||◌, ◌∷◌, ◌≡◌,
}
use night_recon.Approvals.Records.{
  ApprovalEvent, ApprovalPrincipal, ApprovalRequest, find_principal,
}
use night_recon.Approvals.History.{
  Replay, authority_of, check_decision, check_delegation, delegated_source, detail, direct_role,
  in_force, is_delegated, is_pending,
}
use night_recon.Policy.{Platform}

module _ (request : ApprovalRequest) where
  -- A principal of the request with a role that the policy accepts.
  pub record HasRole (id : String) : Type 0 where
    pub principal : ApprovalPrincipal
    pub found : find_principal id request.principals ≡ ok principal
    pub role : String
    pub held : contains role principal.roles ≡ true
    pub eligible : contains role request.policy.eligible_roles ≡ true

  -- Someone who may decide: not the requester, unless the policy says so.
  abbrev pub IsSeparate : String → Type 0
  IsSeparate id =
      request.policy.requester_may_approve ≡ false → (id == request.requested_by) ≡ false

  abbrev pub IsSource : String → Type 0
  IsSource id = HasRole id × IsSeparate id

  abbrev pub DelegatesWell : ApprovalEvent → Type 0
  DelegatesWell e = is_delegated e.event_type ≡ true → IsSource e.actor_id

  module _ (p : Platform) where
    pub direct_role-HasRole :
        (id : String) (role : Option String) → direct_role p request id role ≡ ok true → HasRole id
    unfolding direct_role
    direct_role-HasRole id none h = absurd (ground (arith, h))
    direct_role-HasRole id (some role) h =
        elim (Result-cases (find_principal id request.principals)) [
          | inr (e, b) ↦ absurd (ground (arith, b, h))
          | inl (q, f) ↦ record {
            principal = q;
            found = f;
            role = role;
            held = ground (arith, f, h);
            eligible = ground (arith, f, h);
          }
        ]

    delegated_source-IsSource :
        (actor role : String) (at : ℕ) (es : List ApprovalEvent) (s : String)
        → All DelegatesWell es
        → delegated_source p actor role at es ≡ ok (some s)
        → IsSource s
    unfolding delegated_source
    delegated_source-IsSource actor role at [] s a h = absurd (ground (arith, h))
    delegated_source-IsSource actor role at (e ∷ es) s a h =
        let again = delegated_source-IsSource actor role at es s a.1 in
        elim (Bool-cases (
          is_delegated e.event_type
          && (detail "delegate_id" e == some actor)
          && (detail "delegated_role" e == some role))) [
            | inr miss ↦ again (ground (arith, miss, h))
            | inl hit ↦ elim (Result-cases (in_force p e at)) [
              | inr (x, b) ↦ absurd (ground (arith, hit, b, h))
              | inl (false, b) ↦ again (ground (arith, hit, b, h))
              | inl (true, b) ↦
                  subst IsSource {x = e.actor_id} {y = s} (ground (arith, hit, b, h))
                    (a.0 (ground (arith, hit)))
            ]
          ]

    All-reverse :
        (P : ApprovalEvent → Type 0) (es : List ApprovalEvent) → All P es → All P (reverse es)
    All-reverse P [] a = tt
    All-reverse P (e ∷ es) a = All-append P (reverse es) (e ∷ []) (All-reverse P es a.1) (a.0, tt)

    authority_of-IsSource :
        (r : Replay) (e : ApprovalEvent) (s : String)
        → All DelegatesWell r.prior_events
        → IsSeparate e.actor_id
        → authority_of p request r e ≡ ok (some s)
        → IsSource s
    unfolding authority_of
    authority_of-IsSource r e s a apart h =
        elim (Result-cases (direct_role p request e.actor_id e.actor_role)) [
          | inr (x, b) ↦ absurd (ground (arith, b, h))
          | inl (true, b) ↦
              subst IsSource {x = e.actor_id} {y = s} (ground (arith, b, h))
                (direct_role-HasRole e.actor_id e.actor_role b, apart)
          | inl (false, b) ↦ elim (Option-cases e.actor_role) [
            | inl n ↦ absurd (ground (arith, b, n, h))
            | inr (role, f) ↦
                delegated_source-IsSource e.actor_id role e.occurred_at.instant
                  (reverse r.prior_events) s (All-reverse DelegatesWell r.prior_events a)
                  (ground (arith, b, f, h))
          ]
        ]

    -- what an accepted decision shows
    pub record IsDecision (r : Replay) (e : ApprovalEvent) (s : String) : Type 0 where
      pub open_state : is_pending r.state ≡ true
      pub separate : IsSeparate e.actor_id
      pub source : IsSource s
      pub named : detail "authority_source" e ≡ some s

    pub check_decision-IsDecision :
        (r : Replay) (e : ApprovalEvent) (s : String)
        → All DelegatesWell r.prior_events
        → check_decision p request r e ≡ ok s
        → IsDecision r e s
    unfolding check_decision
    check_decision-IsDecision r e s a h = elim (Bool-cases (is_pending r.state)) [
      | inr b ↦ absurd (ground (arith, b, h))
      | inl i ↦ elim (Result-cases (find_principal e.actor_id request.principals)) [
        | inr (x, b) ↦ absurd (ground (arith, i, b, h))
        | inl (q, f) ↦
            elim (Bool-cases
              (request.policy.requester_may_approve || not (e.actor_id == request.requested_by))) [
                | inr b ↦ absurd (ground (arith, i, f, b, h))
                | inl apart ↦ elim (Result-cases (authority_of p request r e)) [
                  | inr (x, b) ↦ absurd (ground (arith, i, f, apart, b, h))
                  | inl (none, b) ↦ absurd (ground (arith, i, f, apart, b, h))
                  | inl (some t, b) ↦ elim (Bool-cases (detail "authority_source" e == some t)) [
                    | inr c ↦ absurd (ground (arith, i, f, apart, b, c, h))
                    | inl c ↦
                        let eq : t ≡ s = ground (arith, i, f, apart, b, c, h) in
                        let separate : IsSeparate e.actor_id = λ k. ground (arith, apart, k) in
                        record {
                          open_state = i;
                          separate = separate;
                          source = authority_of-IsSource r e s a separate (ground (arith, b, eq));
                          named =
                              ground (
                                arith,
                                eq,
                                c,
                                option_eq_iff (detail "authority_source" e) (some t),
                              );
                        }
                  ]
                ]
              ]
      ]
    ]

    pub check_delegation-IsSource :
        (r : Replay) (e : ApprovalEvent)
        → check_delegation p request r e ≡ ok tt
        → IsSource e.actor_id
    unfolding check_delegation
    check_delegation-IsSource r e h = elim (Option-cases (detail "delegated_role" e)) [
      | inl n ↦ absurd (ground (arith, n, h))
      | inr (role, f) ↦ (
        direct_role-HasRole e.actor_id (some role) (ground (arith, f, h)),
        λ k. ground (arith, f, h, k),
      )
    ]
