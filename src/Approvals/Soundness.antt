-- ===== src/Approvals/Soundness.antt =====
-- approval_engine.py: every history that the replay accepts keeps the invariant.
use mathlib.Core.Path.{subst}
use mathlib.Core.List.{append-nil, append_assoc}
use night_recon.Prelude.{
  Bool, Bool-cases, List, Result-cases, [], arith, false, if◌then◌else◌, inl, inr, leb, length,
  length-append, ok, refl, true, ℕ, ◌++◌, ◌+◌, ◌<◌, ◌||◌, ◌∙◌, ◌∷◌, ◌≡◌,
}
use night_recon.Approvals.Records.{
  ApprovalEvent, ApprovalRequest, EventType, approved, delegated, escalated, rejected, requested,
  revoked,
}
use night_recon.Approvals.Payload.{Services}
use night_recon.Approvals.History.{
  Replay, Status, approved_state, check_decision, check_delegation, check_escalation, direct_role,
  expired, is_approved, is_approved_state, is_delegated, is_pending, is_rejected, is_revoked,
  pending, rejected_state, revoked_state,
}
use night_recon.Approvals.Replay.{apply_event, replay, replay_event}
use night_recon.Approvals.Sources.{check_decision-IsDecision, check_delegation-IsSource}
use night_recon.Approvals.Invariant.{
  Fits, Sound, approval-Sound, has_rejection, has_revocation, quiet-Sound,
}

pending-Fits :
    (st : Status) (n k : ℕ) (a b : Bool)
    → is_pending st ≡ true
    → Fits st n k a b
    → (st ≡ pending) × (k < n) × (a ≡ false) × (b ≡ false)
unfolding is_pending
pending-Fits pending n k a b i f = (refl, f.0, f.1, f.2)
pending-Fits approved_state n k a b i f = cc
pending-Fits rejected_state n k a b i f = cc
pending-Fits revoked_state n k a b i f = cc
pending-Fits expired n k a b i f = cc

approved-Fits :
    (st : Status) (n k : ℕ) (a b : Bool)
    → is_approved_state st ≡ true
    → Fits st n k a b
    → (k ≡ n) × (a ≡ false) × (b ≡ false)
unfolding is_approved_state
approved-Fits pending n k a b i f = cc
approved-Fits approved_state n k a b i f = f
approved-Fits rejected_state n k a b i f = cc
approved-Fits revoked_state n k a b i f = cc
approved-Fits expired n k a b i f = cc

-- one more approval
next-Fits :
    (n k : ℕ) (a b : Bool)
    → k < n
    → a ≡ false
    → b ≡ false
    → Fits (if leb n (k + 1) then approved_state else pending) n (k + 1) a b
next-Fits n k a b l x y = elim (Bool-cases (leb n (k + 1))) [
  | inl full ↦
      subst (λ s. Fits s n (k + 1) a b) {x = approved_state} (ground (arith, full))
        (ground (arith, full), x, y)
  | inr room ↦
      subst (λ s. Fits s n (k + 1) a b) {x = pending} (ground (arith, room))
        (ground (arith, room), x, y)
]

module _ (services : Services) (request : ApprovalRequest) where
  abbrev after : Replay → Replay → ApprovalEvent → Replay
  after r next e = record next { prior_events = r.prior_events ++ e ∷ [] }

  -- an event that neither rejects nor revokes leaves the fit as it is
  Fits-same :
      (r : Replay)
      → Sound request r
      → Fits r.state request.policy.required_approvals
          (length r.authority_sources)
          (has_rejection r.prior_events || false)
          (has_revocation r.prior_events || false)
  Fits-same r s =
      subst
        (λ (x : Bool × Bool).
          Fits r.state request.policy.required_approvals (length r.authority_sources) x.0 x.1)
        {x = (has_rejection r.prior_events, has_revocation r.prior_events)}
        {y = (has_rejection r.prior_events || false, has_revocation r.prior_events || false)}
        (ground arith) s.fits

  approved-Sound :
      (r next : Replay) (e : ApprovalEvent)
      → e.event_type ≡ approved
      → Sound request r
      → apply_event services approved request r e ≡ ok next
      → Sound request (after r next e)
  unfolding apply_event
  approved-Sound r next e t s h =
      elim (Result-cases (check_decision services.platform request r e)) [
        | inr (x, b) ↦ absurd (ground (arith, b, h))
        | inl (source, b) ↦
            let d =
              check_decision-IsDecision request services.platform r e source s.delegations b in
            let (p, k, x, y) = pending-Fits r.state _ _ _ _ d.open_state s.fits in
            let n = request.policy.required_approvals in
            let st : Status =
              if leb n (length (r.authority_sources ++ source ∷ []))
              then approved_state
              else r.state in
            let len : length (r.authority_sources ++ source ∷ []) ≡ length r.authority_sources + 1 =
              ground (arith, length-append r.authority_sources (source ∷ [])) in
            let fits : Fits st n (length (r.authority_sources ++ source ∷ []))
                (has_rejection r.prior_events) (has_revocation r.prior_events) =
              rw (p, len)
                (next-Fits n (length r.authority_sources) (has_rejection r.prior_events)
                  (has_revocation r.prior_events) k x y) in
            subst (λ (q : Replay). Sound request (after r q e))
              {x = record r {
                state = st;
                approving_actors = r.approving_actors ++ e.actor_id ∷ [];
                authority_sources = r.authority_sources ++ source ∷ [];
              }}
              {y = next} (ground (arith, b, h))
              (approval-Sound request services.platform r e st source s t d (ground (arith, b, h))
                (ground (arith, b, h)) fits)
      ]

  rejected-Sound :
      (r next : Replay) (e : ApprovalEvent)
      → e.event_type ≡ rejected
      → Sound request r
      → apply_event services rejected request r e ≡ ok next
      → Sound request (after r next e)
  unfolding apply_event is_approved is_delegated is_rejected is_revoked
  rejected-Sound r next e t s h =
      elim (Result-cases (check_decision services.platform request r e)) [
        | inr (x, b) ↦ absurd (ground (arith, b, h))
        | inl (source, b) ↦
            let d =
              check_decision-IsDecision request services.platform r e source s.delegations b in
            let (p, k, x, y) = pending-Fits r.state _ _ _ _ d.open_state s.fits in
            subst (λ (q : Replay). Sound request (after r q e))
              {x = record r { state = rejected_state }} {y = next} (ground (arith, b, h))
              (quiet-Sound request r e rejected_state r.was_escalated s (ground (arith, t))
                (λ z. absurd (ground (arith, t, z))) (k, ground (arith, t), ground (arith, t, y)))
      ]

  delegated-Sound :
      (r next : Replay) (e : ApprovalEvent)
      → e.event_type ≡ delegated
      → Sound request r
      → apply_event services delegated request r e ≡ ok next
      → Sound request (after r next e)
  unfolding apply_event is_approved is_rejected is_revoked
  delegated-Sound r next e t s h =
      elim (Result-cases (check_delegation services.platform request r e)) [
        | inr (x, b) ↦ absurd (ground (arith, b, h))
        | inl (u, b) ↦
            subst (λ (q : Replay). Sound request (after r q e)) {x = r} {y = next}
              (ground (arith, b, h))
              (quiet-Sound request r e r.state r.was_escalated s (ground (arith, t))
                (λ z. check_delegation-IsSource request services.platform r e b)
                (rw t (Fits-same r s)))
      ]

  escalated-Sound :
      (r next : Replay) (e : ApprovalEvent)
      → e.event_type ≡ escalated
      → Sound request r
      → apply_event services escalated request r e ≡ ok next
      → Sound request (after r next e)
  unfolding apply_event is_approved is_delegated is_rejected is_revoked
  escalated-Sound r next e t s h =
      elim (Result-cases (check_escalation services.platform services.loads_roles request r e)) [
        | inr (x, b) ↦ absurd (ground (arith, b, h))
        | inl (u, b) ↦
            subst (λ (q : Replay). Sound request (after r q e))
              {x = record r { was_escalated = true }} {y = next} (ground (arith, b, h))
              (quiet-Sound request r e r.state true s (ground (arith, t))
                (λ z. absurd (ground (arith, t, z))) (rw t (Fits-same r s)))
      ]

  revoked-Sound :
      (r next : Replay) (e : ApprovalEvent)
      → e.event_type ≡ revoked
      → Sound request r
      → apply_event services revoked request r e ≡ ok next
      → Sound request (after r next e)
  unfolding apply_event is_approved is_delegated is_rejected is_revoked
  revoked-Sound r next e t s h = elim (Bool-cases (is_approved_state r.state)) [
    | inr b ↦ absurd (ground (arith, b, h))
    | inl a ↦
        let (k, x, y) = approved-Fits r.state _ _ _ _ a s.fits in
        elim (Result-cases (direct_role services.platform request e.actor_id e.actor_role)) [
          | inr (z, b) ↦ absurd (ground (arith, a, b, h))
          | inl (false, b) ↦ absurd (ground (arith, a, b, h))
          | inl (true, b) ↦
              subst (λ (q : Replay). Sound request (after r q e))
                {x = record r { state = revoked_state }} {y = next} (ground (arith, a, b, h))
                (quiet-Sound request r e revoked_state r.was_escalated s (ground (arith, t))
                  (λ z. absurd (ground (arith, t, z))) (k, ground (arith, t, x), ground (arith, t)))
        ]
  ]

  apply_event-Sound :
      (t : EventType) (r next : Replay) (e : ApprovalEvent)
      → e.event_type ≡ t
      → Sound request r
      → apply_event services t request r e ≡ ok next
      → Sound request (after r next e)
  unfolding apply_event
  apply_event-Sound requested r next e t s h = cc
  apply_event-Sound approved r next e t s h = approved-Sound r next e t s h
  apply_event-Sound rejected r next e t s h = rejected-Sound r next e t s h
  apply_event-Sound delegated r next e t s h = delegated-Sound r next e t s h
  apply_event-Sound escalated r next e t s h = escalated-Sound r next e t s h
  apply_event-Sound revoked r next e t s h = revoked-Sound r next e t s h

  replay_event-Sound :
      (r next : Replay) (e : ApprovalEvent)
      → Sound request r
      → replay_event services request r e ≡ ok next
      → Sound request next
  unfolding replay_event
  replay_event-Sound r next e s h =
      elim (Result-cases (apply_event services e.event_type request r e)) [
        | inr (x, b) ↦ absurd (ground (arith, b, h))
        | inl (q, b) ↦
            subst (λ (z : Replay). Sound request z) {x = after r q e} {y = next}
              (ground (arith, b, h)) (apply_event-Sound e.event_type r q e refl s b)
      ]

  replay_event-adds :
      (r next : Replay) (e : ApprovalEvent)
      → replay_event services request r e ≡ ok next
      → next.prior_events ≡ r.prior_events ++ e ∷ []
  unfolding replay_event
  replay_event-adds r next e h = ground arith

  pub replay-Sound :
      (r final : Replay) (events : List ApprovalEvent)
      → Sound request r
      → replay services request r events ≡ ok final
      → Sound request final × (final.prior_events ≡ r.prior_events ++ events)
  unfolding replay
  replay-Sound r final [] s h =
      let eq : r ≡ final = ground (arith, h) in
      (subst (λ (z : Replay). Sound request z) eq s, ground (arith, eq, append-nil r.prior_events))
  replay-Sound r final (e ∷ events) s h = elim (Result-cases (replay_event services request r e)) [
    | inr (x, b) ↦ absurd (ground (arith, b, h))
    | inl (next, b) ↦
        let (final_sound, eq) =
          replay-Sound next final events (replay_event-Sound r next e s b) (ground (arith, b, h)) in
        (
          final_sound,
          eq
              ∙ ground (
                arith,
                replay_event-adds r next e b,
                append_assoc r.prior_events (e ∷ []) events,
              ),
        )
  ]
