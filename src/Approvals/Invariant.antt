-- ===== src/Approvals/Invariant.antt =====
-- approval_engine.py: what the variables of `_validate_history` say of the events replayed so far.
use mathlib.Core.Path.{subst}
use mathlib.Core.List.{map-append, append-nil}
use night_recon.Prelude.{
  All, All-append, Bool, List, Option, String, [], any, any-append, ap, arith, bool_Eq, contains,
  false, length, list_Eq, map, nat_Eq, option_Eq, pair_Eq, select, select-append, some, string_Eq,
  true, unique, unique-snoc, ℕ, ◌++◌, ◌<◌, ◌||◌, ◌∙◌, ◌∷◌, ◌≡◌,
}
use night_recon.Approvals.Records.{ApprovalEvent, ApprovalRequest, approved}
use night_recon.Approvals.History.{
  Replay, Status, approved_state, detail, expired, is_approved, is_delegated, is_rejected,
  is_revoked, pending, rejected_state, revoked_state,
}
use night_recon.Policy.{Platform}
use night_recon.Approvals.Sources.{DelegatesWell, IsDecision, IsSeparate, IsSource}

abbrev pub approvals : List ApprovalEvent → List ApprovalEvent
approvals events = select (λ (e : ApprovalEvent). is_approved e.event_type) events

abbrev pub actors : List ApprovalEvent → List String
actors events = map (λ (e : ApprovalEvent). e.actor_id) events

abbrev pub sources : List ApprovalEvent → List (Option String)
sources events = map (λ (e : ApprovalEvent). detail "authority_source" e) events

abbrev pub has_rejection : List ApprovalEvent → Bool
has_rejection events = any (λ (e : ApprovalEvent). is_rejected e.event_type) events

abbrev pub has_revocation : List ApprovalEvent → Bool
has_revocation events = any (λ (e : ApprovalEvent). is_revoked e.event_type) events

-- How a state fits the number of approvals, of `n` required, and the presence of a rejection and a
-- revocation.
abbrev pub Fits : Status → ℕ → ℕ → Bool → Bool → Type 0
Fits pending n k rej rev = (k < n) × (rej ≡ false) × (rev ≡ false)
Fits approved_state n k rej rev = (k ≡ n) × (rej ≡ false) × (rev ≡ false)
Fits rejected_state n k rej rev = (k < n) × (rej ≡ true) × (rev ≡ false)
Fits revoked_state n k rej rev = (k ≡ n) × (rej ≡ false) × (rev ≡ true)
Fits expired n k rej rev = true ≡ false

module _ (request : ApprovalRequest) where
  pub record Sound (r : Replay) : Type 0 where
    pub acting : actors (approvals r.prior_events) ≡ r.approving_actors
    pub drawing : sources (approvals r.prior_events) ≡ map some r.authority_sources
    pub once : unique r.approving_actors ≡ true
    pub counted : unique r.authority_sources ≡ true
    pub separate : All (IsSeparate request) r.approving_actors
    pub entitled : All (IsSource request) r.authority_sources
    pub delegations : All (DelegatesWell request) r.prior_events
    pub fits :
        Fits r.state request.policy.required_approvals
          (length r.authority_sources)
          (has_rejection r.prior_events)
          (has_revocation r.prior_events)

  -- an event that is no approval leaves the approvals as they are
  pub quiet-Sound :
      (r : Replay) (e : ApprovalEvent) (st : Status) (esc : Bool)
      → Sound r
      → is_approved e.event_type ≡ false
      → DelegatesWell request e
      → Fits st request.policy.required_approvals
          (length r.authority_sources)
          (has_rejection r.prior_events || is_rejected e.event_type)
          (has_revocation r.prior_events || is_revoked e.event_type)
      → Sound
          (record r { state = st; was_escalated = esc; prior_events = r.prior_events ++ e ∷ [] })
  unfolding select any
  quiet-Sound r e st esc s other d f =
      let same : approvals (r.prior_events ++ e ∷ []) ≡ approvals r.prior_events = ground (
        arith,
        append-nil (approvals r.prior_events),
        select-append (λ (x : ApprovalEvent). is_approved x.event_type) r.prior_events (e ∷ []),
        other,
      ) in
      record {
        acting = ap actors same ∙ s.acting;
        drawing = ap sources same ∙ s.drawing;
        once = s.once;
        counted = s.counted;
        separate = s.separate;
        entitled = s.entitled;
        delegations =
            All-append (DelegatesWell request) r.prior_events (e ∷ []) s.delegations (d, tt);
        fits =
            subst
              (λ (x : Bool × Bool).
                Fits st request.policy.required_approvals (length r.authority_sources) x.0 x.1)
              {x = (
                has_rejection r.prior_events || is_rejected e.event_type,
                has_revocation r.prior_events || is_revoked e.event_type,
              )}
              {y = (
                has_rejection (r.prior_events ++ e ∷ []),
                has_revocation (r.prior_events ++ e ∷ []),
              )}
              (ground (
                arith,
                any-append (λ (x : ApprovalEvent). is_rejected x.event_type) r.prior_events
                    (e ∷ []),
                any-append (λ (x : ApprovalEvent). is_revoked x.event_type) r.prior_events (e ∷ []),
              ))
              f;
      }

  -- an approval adds its author and its source
  pub approval-Sound :
      (p : Platform) (r : Replay) (e : ApprovalEvent) (st : Status) (source : String)
      → Sound r
      → e.event_type ≡ approved
      → IsDecision request p r e source
      → contains e.actor_id r.approving_actors ≡ false
      → contains source r.authority_sources ≡ false
      → Fits st request.policy.required_approvals
          (length (r.authority_sources ++ source ∷ []))
          (has_rejection r.prior_events)
          (has_revocation r.prior_events)
      → Sound (record r {
        state = st;
        approving_actors = r.approving_actors ++ e.actor_id ∷ [];
        authority_sources = r.authority_sources ++ source ∷ [];
        prior_events = r.prior_events ++ e ∷ [];
      })
  unfolding select any is_approved is_delegated is_rejected is_revoked
  approval-Sound p r e st source s hit d new_actor new_source f =
      let more : approvals (r.prior_events ++ e ∷ []) ≡ approvals r.prior_events ++ e ∷ [] =
        ground (
          arith,
          select-append (λ (x : ApprovalEvent). is_approved x.event_type) r.prior_events (e ∷ []),
          hit,
        ) in
      record {
        acting =
            ap actors more
            ∙ map-append (λ (x : ApprovalEvent). x.actor_id) (approvals r.prior_events) (e ∷ [])
            ∙ ap (λ (xs : List String). xs ++ e.actor_id ∷ []) s.acting;
        drawing =
            ap sources more
            ∙ map-append (λ (x : ApprovalEvent). detail "authority_source" x)
                (approvals r.prior_events) (e ∷ [])
            ∙ ground (
              arith,
              s.drawing,
              d.named,
              map-append {A = String} some r.authority_sources (source ∷ []),
            );
        once = unique-snoc e.actor_id r.approving_actors s.once new_actor;
        counted = unique-snoc source r.authority_sources s.counted new_source;
        separate =
            All-append (IsSeparate request) r.approving_actors (e.actor_id ∷ []) s.separate
              (d.separate, tt);
        entitled =
            All-append (IsSource request) r.authority_sources (source ∷ []) s.entitled
              (d.source, tt);
        delegations =
            All-append (DelegatesWell request) r.prior_events (e ∷ []) s.delegations
              (λ k. absurd (ground (arith, hit, k)), tt);
        fits =
            subst
              (λ (x : Bool × Bool).
                Fits st request.policy.required_approvals
                  (length (r.authority_sources ++ source ∷ [])) x.0 x.1)
              {x = (has_rejection r.prior_events, has_revocation r.prior_events)}
              {y = (
                has_rejection (r.prior_events ++ e ∷ []),
                has_revocation (r.prior_events ++ e ∷ []),
              )}
              (ground (
                arith,
                hit,
                any-append (λ (x : ApprovalEvent). is_rejected x.event_type) r.prior_events
                    (e ∷ []),
                any-append (λ (x : ApprovalEvent). is_revoked x.event_type) r.prior_events (e ∷ []),
              ))
              f;
      }
