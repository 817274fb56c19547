-- ===== src/Approvals/Recorded.antt =====
-- approval_engine.py: all operations against their rules.
use night_recon.Prelude.{
  List-cases, Option-cases, Result-cases, String, [], arith, inl, inr, none, ok, refl, some,
  string_Eq, true, ◌++◌, ◌<◌, ◌∷◌, ◌≡◌, ◌≤◌,
}
use night_recon.Approvals.Records.{
  ApprovalEvent, Moment, delegated, escalated, find_principal, revoked,
}
use night_recon.Approvals.History.{Workflow, is_approved_state, is_pending, iso8601}
use night_recon.Approvals.Status.{eligible_roles_of, ensure_pending, escalation_due}
use night_recon.Approvals.Payload.{Services}
use night_recon.Approvals.Workflow.{Delegation, check_delegate, delegate, escalate, revoke}
use night_recon.Approvals.Replay.{build}
use night_recon.Approvals.Operations.{
  Operation, approves, delegates, escalates, perform, rejects, revokes,
}
use night_recon.Approvals.Rules.{eligible_roles_of-eligible, not_escalated}
use night_recon.Approvals.Recording.{IsAppended-IsRecorded, IsRecorded, MayDelegate, MayEscalate}
use night_recon.Approvals.Deciding.{
  approve-IsRecorded, ensure_pending-status, reject-IsRecorded, separated_lem,
}

module _ (services : Services) where
  escalation_due-MayEscalate :
      (at : Moment) (w : Workflow) → escalation_due at w ≡ true → MayEscalate at w
  unfolding escalation_due is_pending
  escalation_due-MayEscalate at w h =
      elim (Option-cases w.request.policy.escalation_after_seconds) [
        | inl n ↦ absurd (ground (arith, h, n))
        | inr (seconds, n) ↦ record {
          waiting = ground (arith, h, n);
          seconds = seconds;
          after = n;
          due = ground (arith, h, n);
          first = not_escalated at.instant w.events (ground (arith, h, n));
        }
      ]

  escalate-IsRecorded :
      (id actor moment reason : String) (w v : Workflow)
      → escalate services id actor moment reason w ≡ ok v
      → IsRecorded services (escalates id actor moment reason) w v
  unfolding escalate
  escalate-IsRecorded id actor moment reason w v h =
      elim (Result-cases (iso8601 services.platform moment)) [
        | inr (x, i) ↦ absurd (ground (arith, i, h))
        | inl (at, i) ↦
            IsAppended-IsRecorded services (escalates id actor moment reason) w v at
              (record {
                event_id = id;
                event_type = escalated;
                actor_id = actor;
                actor_role = none;
                reason = reason;
                details =
                    ("escalation_roles", services.dumps_roles w.request.policy.escalation_roles)
                    ∷ [];
              })
              i (record { kind = refl; named = refl; author = refl; reason = refl })
              (ground (arith, i, h))
              (λ e r d. escalation_due-MayEscalate at w (ground (arith, i, h)))
      ]

  revoke-IsRecorded :
      (id actor moment reason : String) (w v : Workflow)
      → revoke services id actor moment reason w ≡ ok v
      → IsRecorded services (revokes id actor moment reason) w v
  unfolding revoke is_approved_state
  revoke-IsRecorded id actor moment reason w v h =
      elim (Result-cases (iso8601 services.platform moment)) [
        | inr (x, i) ↦ absurd (ground (arith, i, h))
        | inl (at, i) ↦ elim (Result-cases (find_principal actor w.request.principals)) [
          | inr (x, f) ↦ absurd (ground (arith, i, f, h))
          | inl (q, f) ↦ elim (List-cases (eligible_roles_of w.request q)) [
            | inl n ↦ absurd (ground (arith, i, f, n, h))
            | inr (role, roles, c) ↦
                IsAppended-IsRecorded services (revokes id actor moment reason) w v at
                  (record {
                    event_id = id;
                    event_type = revoked;
                    actor_id = actor;
                    actor_role = some role;
                    reason = reason;
                    details = [];
                  })
                  i (record { kind = refl; named = refl; author = refl; reason = refl })
                  (ground (arith, i, f, c, h))
                  (λ e r d. (
                    ground (arith, i, h),
                    record {
                      role = role;
                      its_role = r;
                      eligible = eligible_roles_of-eligible w.request q role roles c;
                    },
                  ))
          ]
        ]
      ]

  check_delegate-MayDelegate :
      (d : Delegation) (at until : Moment) (w : Workflow)
      → ensure_pending at w ≡ ok tt
      → iso8601 services.platform d.valid_until ≡ ok until
      → check_delegate services d w ≡ ok tt
      → at.instant < until.instant
      → until.instant ≤ w.request.expires_at.instant
      → MayDelegate services d at w
  unfolding check_delegate
  check_delegate-MayDelegate d at until w waiting u c before within =
      elim (Result-cases (find_principal d.delegator_id w.request.principals)) [
        | inr (x, f) ↦ absurd (ground (arith, c, f))
        | inl (q, f) ↦ elim (Result-cases (find_principal d.delegate_id w.request.principals)) [
          | inr (x, g) ↦ absurd (ground (arith, c, f, g))
          | inl (r, g) ↦ record {
            decides = record {
              waiting = ensure_pending-status at w waiting;
              separate = separated_lem w.request d.delegator_id (ground (arith, c));
            };
            separate = separated_lem w.request d.delegate_id (ground (arith, c));
            enabled = ground (arith, c);
            other = λ e. ground (arith, c, e, string_Eq.equal_iff d.delegator_id d.delegate_id);
            delegator = q;
            known = f;
            has_role = ground (arith, c, f, g);
            eligible = ground (arith, c, f, g);
            until = until;
            read = u;
            lasting = before;
            within = within;
          }
        ]
      ]

  delegate-IsRecorded :
      (id : String) (d : Delegation) (moment reason : String) (w v : Workflow)
      → delegate services id d moment reason w ≡ ok v
      → IsRecorded services (delegates id d moment reason) w v
  unfolding delegate
  delegate-IsRecorded id d moment reason w v h =
      elim (Result-cases (iso8601 services.platform moment)) [
        | inr (x, i) ↦ absurd (ground (arith, i, h))
        | inl (at, i) ↦ elim (Result-cases (iso8601 services.platform d.valid_until)) [
          | inr (x, u) ↦ absurd (ground (arith, i, u, h))
          | inl (until, u) ↦
              let allowed =
                check_delegate-MayDelegate d at until w (ground (arith, i, u, h)) u
                  (ground (arith, i, u, h)) (ground (arith, i, u, h)) (ground (arith, i, u, h)) in
              IsAppended-IsRecorded services (delegates id d moment reason) w v at
                (record {
                  event_id = id;
                  event_type = delegated;
                  actor_id = d.delegator_id;
                  actor_role = some d.delegated_role;
                  reason = reason;
                  details =
                      ("delegate_id", d.delegate_id)
                      ∷ ("delegated_role", d.delegated_role)
                      ∷ ("valid_until", d.valid_until)
                      ∷ [];
                })
                i (record { kind = refl; named = refl; author = refl; reason = refl })
                (ground (arith, i, u, h)) (λ e r x. (allowed, r))
        ]
      ]

  -- Each operation that succeeds leaves the request and the history as they were and adds one event,
  -- of its own type, with the identifier, the author, the time and the reason of the call, and the result passes all
  -- checks of a workflow again. A decision
  -- is taken and a delegation made only while the request is pending, by and to principals other than
  -- the requester unless the policy admits it; an approver has not approved before, and the authority
  -- drawn on was not drawn on up to then; an escalation is due, and the first up to then; a revocation
  -- takes back an approved request; a delegation is enabled, of a role that the delegator holds and
  -- the policy accepts, and ends after it begins and not after the request. The role of a decision or
  -- a revocation is one that the policy accepts.
  pub perform-IsRecorded :
      (o : Operation) (w v : Workflow) → perform services o w ≡ ok v → IsRecorded services o w v
  unfolding perform
  perform-IsRecorded (approves id actor at reason) w v h =
      approve-IsRecorded services id actor at reason w v h
  perform-IsRecorded (rejects id actor at reason) w v h =
      reject-IsRecorded services id actor at reason w v h
  perform-IsRecorded (escalates id actor at reason) w v h =
      escalate-IsRecorded id actor at reason w v h
  perform-IsRecorded (revokes id actor at reason) w v h = revoke-IsRecorded id actor at reason w v h
  perform-IsRecorded (delegates id d at reason) w v h = delegate-IsRecorded id d at reason w v h

  -- `v` has one event more than `w` and passes all checks again.
  abbrev pub Extends : Workflow → Workflow → Type 0
  Extends w v = (e : ApprovalEvent) × (build services w.request (w.events ++ e ∷ []) ≡ ok v)

  pub perform-Extends : (o : Operation) (w v : Workflow) → perform services o w ≡ ok v → Extends w v
  perform-Extends o w v h = let r = perform-IsRecorded o w v h in (r.event, r.built)
