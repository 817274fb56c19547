-- ===== src/Evidence/Spending.antt =====
-- workspace.py, `authorize_action`: what an answer has cost, and what was written of it.
use mathlib.Core.Path.{subst}
use night_recon.Prelude.{
  Bool, Bool-cases, Option, Option-cases, Result, Result-cases, String, [], ap, arith, bool_Eq,
  false, get, inl, inr, list_Eq, nat_Eq, none, ok, option_Eq, pair_Eq, put, raise, refl, some,
  string_Eq, sym, true, ◌&&◌, ◌++◌, ◌+◌, ◌∙◌, ◌∷◌, ◌≡◌, ◌⊎◌,
}
use night_recon.Policy.{
  ActionRequest, AuthorizationDecision, Datetime, Platform, Policy, check_request, evaluate_action,
  required_text,
}
use night_recon.Evidence.Contracts.{EngagementMetadata, metadata_Eq, record_Eq}
use night_recon.Evidence.Workspace.{envelope_of}
use night_recon.Evidence.Moves.{envelope_of-metadata}
use night_recon.Evidence.Authorizing.{
  Answer, LocalWorkspace, WorkspaceError, after_action, append_authorization_audit, audit_record,
  authorize_action, decide, execution_policy, of_policy, raised_by, spend, status_of,
}
use night_recon.Policy.Decisions.{IsPermitted, evaluate_action_iff}
use night_recon.Policy.Store.{PolicyStore, consume_action, find_policy}
use night_recon.Authorization.{Target, address_Eq}
use night_recon.Policy.Store.Guarantees.{consume_action-eq-ok}
use night_recon.Policy.Store.Changes.{IsSound}

pub raised_by-ok :
    {E A : Type 0} (f : E → WorkspaceError) (r : Result E A) (a : A)
    → raised_by f r ≡ ok a
    → r ≡ ok a
unfolding raised_by
raised_by-ok f (ok x) a h = ground (arith, h)
raised_by-ok f (raise e) a h = absurd (ground (arith, h))

execution_policy-found :
    (id : String) (w : LocalWorkspace) (policy : Policy)
    → execution_policy id w ≡ ok policy
    → get id w.policy_store.policies ≡ some policy
unfolding execution_policy raised_by find_policy
execution_policy-found id w policy h = elim (Result-cases (required_text id)) [
  | inr (e, a) ↦ absurd (ground (arith, h, a))
  | inl (u, a) ↦ elim (Option-cases (get id w.policy_store.policies)) [
    | inl n ↦ absurd (ground (arith, h, a, n))
    | inr (x, n) ↦ ground (arith, h, a, n)
  ]
]

status_known :
    (o : Option EngagementMetadata) (status : String)
    → status_of o ≡ some status
    → (metadata : EngagementMetadata) × ((o ≡ some metadata) × (metadata.status ≡ status))
status_known none status h = absurd (ground (arith, h))
status_known (some metadata) status h = (metadata, (refl, ground (arith, h)))

module _ (p : Platform) (id : String) (request : ActionRequest) (now : Datetime) where
  -- What a decision says of an engagement that is known, with its policy.
  pub record IsDecided (w : LocalWorkspace) (d : AuthorizationDecision) : Type 0 where
    pub policy : Policy
    pub found : get id w.policy_store.policies ≡ some policy
    pub status : Option String
    pub known_status : status ≡ status_of (get id w.store.memory.metadata)
    pub evaluated :
        evaluate_action p policy (record request { engagement_status = status }) now ≡ ok d

  -- The action was permitted to an active engagement, and one action is taken from the budget of its
  -- policy, in memory and in the file.
  pub record Spends (w : LocalWorkspace) (left : PolicyStore) (d : AuthorizationDecision)
      : Type 0 where
    pub policy : Policy
    pub found : get id w.policy_store.policies ≡ some policy
    pub metadata : EngagementMetadata
    pub known : get id w.store.memory.metadata ≡ some metadata
    pub active : metadata.status ≡ "active"
    pub target : Target
    pub permitted :
        IsPermitted p policy
          (record request { engagement_status = some metadata.status })
          target
          now.instant
    pub counted :
        left.policies
        ≡ put id (record policy { actions_used = policy.actions_used + 1 }) w.policy_store.policies
    pub saved : left.saved ≡ left.policies
    pub allowed : d.allowed ≡ true
    pub used : d.actions_used ≡ policy.actions_used + 1
    pub remaining : d.actions_used + d.remaining_actions ≡ policy.max_actions

  pub decide-IsDecided :
      (w : LocalWorkspace) (d : AuthorizationDecision)
      → decide p id request now w ≡ ok d
      → IsDecided w d
  unfolding decide raised_by
  decide-IsDecided w d h = elim (Result-cases (execution_policy id w)) [
    | inr (e, a) ↦ absurd (ground (arith, h, a))
    | inl (policy, a) ↦ elim (Result-cases (envelope_of id w.store.memory)) [
      | inr (e, b) ↦ absurd (ground (arith, h, a, b))
      | inl (envelope, b) ↦ record {
        policy = policy;
        found = execution_policy-found id w policy a;
        status = status_of envelope.metadata;
        known_status = ap status_of (envelope_of-metadata id w.store.memory envelope b);
        evaluated =
            raised_by-ok of_policy
              (evaluate_action p policy
                (record request { engagement_status = status_of envelope.metadata }) now)
              d (ground (arith, h, a, b));
      }
    ]
  ]

  pub allowed-IsPermitted :
      (policy : Policy) (asked : ActionRequest) (d : AuthorizationDecision)
      → evaluate_action p policy asked now ≡ ok d
      → d.allowed ≡ true
      → (target : Target) × IsPermitted p policy asked target now.instant
  unfolding evaluate_action
  allowed-IsPermitted policy asked d h a = elim (Result-cases (check_request p asked now)) [
    | inr (e, c) ↦ absurd (ground (arith, h, c))
    | inl (target, c) ↦ (target, (evaluate_action_iff p policy asked now target c).0 (d, h, a))
  ]

  spend-Spends :
      (written : Bool) (w : LocalWorkspace) (d r : AuthorizationDecision)
      → IsSound w.policy_store
      → IsDecided w d
      → d.allowed ≡ true
      → (spend p written true id d w).0 ≡ ok r
      → Spends w (spend p written true id d w).1.policy_store r
  unfolding spend after_action raised_by
  spend-Spends written w d r i g a h =
      elim (Result-cases (consume_action p written id w.policy_store).0) [
        | inr (e, c) ↦ absurd (ground (arith, h, a, c))
        | inl (updated, c) ↦
            let (old, found, within, counted, memory, file) =
              consume_action-eq-ok p written id w.policy_store updated i c in
            let asked : ActionRequest = record request { engagement_status = g.status } in
            let (target, permitted) = allowed-IsPermitted g.policy asked d g.evaluated a in
            let active : g.status ≡ some "active" = permitted.stands.active in
            let (metadata, (known, its_status)) =
              status_known (get id w.store.memory.metadata) "active"
                (sym g.known_status ∙ active) in
            let same : old ≡ g.policy = ground (arith, found, g.found) in
            record {
              policy = g.policy;
              found = g.found;
              metadata = metadata;
              known = known;
              active = its_status;
              target = target;
              permitted =
                  subst
                    (λ o.
                      IsPermitted p g.policy (record request { engagement_status = o }) target
                        now.instant)
                    (active ∙ ap some (sym its_status)) permitted;
              counted = ground (arith, h, a, c, memory, counted, same);
              saved = ground (arith, h, a, c, memory, file);
              allowed = ground (arith, h, a, c);
              used = ground (arith, h, a, c, counted, same);
              remaining = ground (arith, h, a, c, counted, same, within);
            }
      ]

  -- What an answer that is not an exception leaves.
  pub record IsAnswered (consume : Bool) (w t : LocalWorkspace) (d : AuthorizationDecision)
      : Type 0 where
    pub audited : t.audit ≡ w.audit ++ audit_record now d ∷ []
    pub evidence : t.store ≡ w.store
    pub cost :
        ((d.allowed && consume ≡ true) × Spends w t.policy_store d)
        ⊎ ((d.allowed && consume ≡ false) × (t.policy_store ≡ w.policy_store))

  pub append_authorization_audit-ok :
      (logged : Bool) (a : Answer) (d : AuthorizationDecision)
      → (append_authorization_audit logged now a).0 ≡ ok d
      → (a.0 ≡ ok d)
        × ((append_authorization_audit logged now a).1
            ≡ record a.1 { audit = a.1.audit ++ audit_record now d ∷ [] })
  unfolding append_authorization_audit
  append_authorization_audit-ok logged (raise e, w) d h = absurd (ground (arith, h))
  append_authorization_audit-ok logged (ok x, w) d h = (ground (arith, h), ground (arith, h))

  spend-IsAnswered :
      (written consume : Bool) (w : LocalWorkspace) (d r : AuthorizationDecision)
      → IsSound w.policy_store
      → IsDecided w d
      → (spend p written consume id d w).0 ≡ ok r
      → IsAnswered consume w
          (record (spend p written consume id d w).1 {
            audit = (spend p written consume id d w).1.audit ++ audit_record now r ∷ [];
          })
          r
  unfolding spend after_action raised_by
  spend-IsAnswered written consume w d r i g h = elim (Bool-cases (d.allowed && consume)) [
    | inr b ↦ record {
      audited = ground (arith, b, h);
      evidence = ground (arith, b);
      cost = inr (ground (arith, b, h), ground (arith, b));
    }
    | inl b ↦
        let on : consume ≡ true = ground (arith, b) in
        let paid : Spends w (spend p written consume id d w).1.policy_store r =
          subst
            (λ c.
              (spend p written c id d w).0 ≡ ok r
              → Spends w (spend p written c id d w).1.policy_store r)
            (sym on) (spend-Spends written w d r i g (ground (arith, b))) h in
        record {
          audited = ground (arith, b);
          evidence = ground (arith, b);
          cost = inl (ground (arith, b, paid.allowed), paid);
        }
  ]

  -- From a sound policy store, every answer that `authorize_action` returns has added one line to the
  -- audit, which agrees with the answer, and left the evidence as it was. If the answer is permission
  -- and an action was to be consumed, then the engagement is active, its policy permits the action,
  -- one action is taken from the policy's budget in memory and in the file, and the numbers of the
  -- answer are those after that; otherwise the policies are as they were.
  pub authorize_action-IsAnswered :
      (written logged consume : Bool) (w : LocalWorkspace) (d : AuthorizationDecision)
      → IsSound w.policy_store
      → (authorize_action p written logged id request consume now w).0 ≡ ok d
      → IsAnswered consume w (authorize_action p written logged id request consume now w).1 d
  unfolding authorize_action
  authorize_action-IsAnswered written logged consume w d i h =
      elim (Result-cases (decide p id request now w)) [
        | inr (e, a) ↦ absurd (ground (arith, h, a))
        | inl (first, a) ↦
            let (paid, whole) =
              append_authorization_audit-ok logged (spend p written consume id first w) d
                (ground (arith, h, a)) in
            subst (λ t. IsAnswered consume w t d) (ground (arith, a, whole))
              (spend-IsAnswered written consume w first d i (decide-IsDecided w first a) paid)
      ]
