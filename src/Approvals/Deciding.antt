-- ===== src/Approvals/Deciding.antt =====
-- approval_engine.py: `approve` and `reject` against their rules.
use night_recon.Prelude.{
  Result-cases, String, [], arith, bool_Eq, eq_refl, false, inl, inr, insort, list_Eq, nat_Eq, ok,
  option_Eq, pair_Eq, refl, some, sorted, string_Eq, true, ◌∷◌, ◌≡◌, ◌≢◌,
}
use night_recon.Approvals.Records.{ApprovalRequest, Moment, approved, rejected}
use night_recon.Approvals.History.{Workflow, is_pending, iso8601, pending}
use night_recon.Approvals.Status.{ensure_pending, status}
use night_recon.Approvals.Payload.{Services}
use night_recon.Approvals.Workflow.{approve, eligible_authority, reject, separated}
use night_recon.Approvals.Operations.{approves, rejects}
use night_recon.Approvals.Rules.{eligible_authority-eligible, not_approved_by, not_drawn_on}
use night_recon.Approvals.Recording.{IsAppended-IsRecorded, IsRecorded}

pub ensure_pending-status :
    (at : Moment) (w : Workflow) → ensure_pending at w ≡ ok tt → status at w ≡ pending
unfolding ensure_pending is_pending
ensure_pending-status at w h = ground (arith, h)

pub separated_lem :
    (request : ApprovalRequest) (actor : String)
    → separated request actor ≡ true
    → request.policy.requester_may_approve ≡ false
    → actor ≢ request.requested_by
unfolding separated
separated_lem request actor h m e = ground (arith, h, m, e, eq_refl actor)

module _ (services : Services) where
  pub approve-IsRecorded :
      (id actor moment reason : String) (w v : Workflow)
      → approve services id actor moment reason w ≡ ok v
      → IsRecorded services (approves id actor moment reason) w v
  unfolding approve sorted insort
  approve-IsRecorded id actor moment reason w v h =
      elim (Result-cases (iso8601 services.platform moment)) [
        | inr (x, i) ↦ absurd (ground (arith, i, h))
        | inl (at, i) ↦ elim (Result-cases (eligible_authority services w actor at.instant)) [
          | inr (x, a) ↦ absurd (ground (arith, i, a, h))
          | inl ((role, source), a) ↦
              let waiting : ensure_pending at w ≡ ok tt = ground (arith, i, h) in
              let apart : separated w.request actor ≡ true = ground (arith, i, h) in
              let once = not_approved_by actor w.events (ground (arith, i, h)) in
              let drawn = not_drawn_on source at.instant w.events (ground (arith, i, a, h)) in
              IsAppended-IsRecorded services (approves id actor moment reason) w v at
                (record {
                  event_id = id;
                  event_type = approved;
                  actor_id = actor;
                  actor_role = some role;
                  reason = reason;
                  details = ("authority_source", source) ∷ [];
                })
                i (record { kind = refl; named = refl; author = refl; reason = refl })
                (ground (arith, i, a, h))
                (λ e r d. (
                  record {
                    waiting = ensure_pending-status at w waiting;
                    separate = separated_lem w.request actor apart;
                  },
                  once,
                  record {
                    role = role;
                    its_role = r;
                    eligible =
                        eligible_authority-eligible services w actor at.instant role source a;
                  },
                  (record { source = source; recorded = d }, drawn),
                ))
        ]
      ]

  pub reject-IsRecorded :
      (id actor moment reason : String) (w v : Workflow)
      → reject services id actor moment reason w ≡ ok v
      → IsRecorded services (rejects id actor moment reason) w v
  unfolding reject sorted insort
  reject-IsRecorded id actor moment reason w v h =
      elim (Result-cases (iso8601 services.platform moment)) [
        | inr (x, i) ↦ absurd (ground (arith, i, h))
        | inl (at, i) ↦ elim (Result-cases (eligible_authority services w actor at.instant)) [
          | inr (x, a) ↦ absurd (ground (arith, i, a, h))
          | inl ((role, source), a) ↦
              let waiting : ensure_pending at w ≡ ok tt = ground (arith, i, h) in
              let apart : separated w.request actor ≡ true = ground (arith, i, h) in
              IsAppended-IsRecorded services (rejects id actor moment reason) w v at
                (record {
                  event_id = id;
                  event_type = rejected;
                  actor_id = actor;
                  actor_role = some role;
                  reason = reason;
                  details = ("authority_source", source) ∷ [];
                })
                i (record { kind = refl; named = refl; author = refl; reason = refl })
                (ground (arith, i, a, h))
                (λ e r d. (
                  record {
                    waiting = ensure_pending-status at w waiting;
                    separate = separated_lem w.request actor apart;
                  },
                  record {
                    role = role;
                    its_role = r;
                    eligible =
                        eligible_authority-eligible services w actor at.instant role source a;
                  },
                  record { source = source; recorded = d },
                ))
        ]
      ]
