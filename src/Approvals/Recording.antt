-- ===== src/Approvals/Recording.antt =====
-- approval_engine.py: the event that each operation records, and when it does.
use night_recon.Prelude.{
  List, Result-cases, String, [], arith, bool_Eq, contains, false, inl, inr, length, list_Eq,
  nat_Eq, ok, option_Eq, pair_Eq, some, sorted, string_Eq, true, ℕ, ◌++◌, ◌<◌, ◌∷◌, ◌≡◌, ◌≢◌, ◌≤◌,
}
use night_recon.Approvals.Records.{
  ApprovalEvent, ApprovalPrincipal, ApprovalRequest, EventType, Moment, approved, delegated,
  escalated, find_principal, rejected, revoked,
}
use night_recon.Approvals.Checks.{check_event, pair_leb}
use night_recon.Approvals.History.{Workflow, approved_state, due_at, iso8601, pending}
use night_recon.Approvals.Status.{status}
use night_recon.Approvals.Payload.{Services}
use night_recon.Approvals.Replay.{build, replay, start_replay}
use night_recon.Approvals.Workflow.{Delegation, Entry, append, last_of, new_event}
use night_recon.Approvals.Operations.{Operation, approves, delegates, escalates, rejects, revokes}
use night_recon.Approvals.Rules.{
  HasRole, HasSource, MayDecide, NotApprovedBy, NotDrawnOn, NotEscalated,
}

-- What the caller says of the event: its type, identifier, author, time and reason.
abbrev pub kind_of : Operation → EventType
kind_of (approves id actor at reason) = approved
kind_of (rejects id actor at reason) = rejected
kind_of (escalates id actor at reason) = escalated
kind_of (revokes id actor at reason) = revoked
kind_of (delegates id d at reason) = delegated

abbrev pub id_of : Operation → String
id_of (approves id actor at reason) = id
id_of (rejects id actor at reason) = id
id_of (escalates id actor at reason) = id
id_of (revokes id actor at reason) = id
id_of (delegates id d at reason) = id

abbrev pub author_of : Operation → String
author_of (approves id actor at reason) = actor
author_of (rejects id actor at reason) = actor
author_of (escalates id actor at reason) = actor
author_of (revokes id actor at reason) = actor
author_of (delegates id d at reason) = d.delegator_id

abbrev pub moment_of : Operation → String
moment_of (approves id actor at reason) = at
moment_of (rejects id actor at reason) = at
moment_of (escalates id actor at reason) = at
moment_of (revokes id actor at reason) = at
moment_of (delegates id d at reason) = at

abbrev pub reason_of : Operation → String
reason_of (approves id actor at reason) = reason
reason_of (rejects id actor at reason) = reason
reason_of (escalates id actor at reason) = reason
reason_of (revokes id actor at reason) = reason
reason_of (delegates id d at reason) = reason

-- The delegation is allowed, to another principal, of a role of the delegator, for a time within that
-- of the request.
pub record MayDelegate (services : Services) (d : Delegation) (at : Moment) (w : Workflow)
    : Type 0 where
  pub decides : MayDecide d.delegator_id at w
  pub separate :
      w.request.policy.requester_may_approve ≡ false → d.delegate_id ≢ w.request.requested_by
  pub enabled : w.request.policy.allow_delegation ≡ true
  pub other : d.delegator_id ≢ d.delegate_id
  pub delegator : ApprovalPrincipal
  pub known : find_principal d.delegator_id w.request.principals ≡ ok delegator
  pub has_role : contains d.delegated_role delegator.roles ≡ true
  pub eligible : contains d.delegated_role w.request.policy.eligible_roles ≡ true
  pub until : Moment
  pub read : iso8601 services.platform d.valid_until ≡ ok until
  pub lasting : at.instant < until.instant
  pub within : until.instant ≤ w.request.expires_at.instant

-- The request waits, and has waited for as long as the policy says, without an escalation.
pub record MayEscalate (at : Moment) (w : Workflow) : Type 0 where
  pub waiting : status at w ≡ pending
  pub seconds : ℕ
  pub after : w.request.policy.escalation_after_seconds ≡ some seconds
  pub due : due_at w.request seconds ≤ at.instant
  pub first : NotEscalated at.instant w.events

-- What each operation asks at its time, with what it writes into the event.
abbrev pub Allowed : Services → Operation → Moment → Workflow → ApprovalEvent → Type 0
Allowed services (approves id actor moment reason) at w e =
    MayDecide actor at w
    × NotApprovedBy actor w.events
    × HasRole w e
    × ((s : HasSource e) × NotDrawnOn s.source at.instant w.events)
Allowed services (rejects id actor moment reason) at w e =
    MayDecide actor at w × HasRole w e × HasSource e
Allowed services (escalates id actor moment reason) at w e = MayEscalate at w
Allowed services (revokes id actor moment reason) at w e =
    (status at w ≡ approved_state) × HasRole w e
Allowed services (delegates id d moment reason) at w e =
    MayDelegate services d at w × (e.actor_role ≡ some d.delegated_role)

module _ (services : Services) where
  -- The event that `_append` adds for an entry.
  pub record IsAppended (w v : Workflow) (at : Moment) (entry : Entry) : Type 0 where
    pub event : ApprovalEvent
    pub built : build services w.request (w.events ++ event ∷ []) ≡ ok v
    pub added : v.events ≡ w.events ++ event ∷ []
    pub same_request : v.request ≡ w.request
    pub whole : event ≡ record (new_event services w at entry (last_of services w.events)) {
      details = sorted pair_leb entry.details;
    }

  build-listed :
      (request : ApprovalRequest) (es : List ApprovalEvent) (v : Workflow)
      → build services request es ≡ ok v
      → (v.request ≡ request) × (v.events ≡ es)
  unfolding build
  build-listed request [] v h = absurd (ground (arith, h))
  build-listed request (e ∷ es) v h =
      elim (Result-cases (replay services request (start_replay e) es)) [
        | inr (x, a) ↦ absurd (ground (arith, h, a))
        | inl (r, a) ↦ (ground (arith, h, a), ground (arith, h, a))
      ]

  check_event-sorted :
      (x e : ApprovalEvent)
      → check_event x ≡ ok e
      → e ≡ record x { details = sorted pair_leb x.details }
  unfolding check_event
  check_event-sorted x e h = ground (arith, h)

  append-IsAppended :
      (w v : Workflow) (at : Moment) (entry : Entry)
      → append services w at entry ≡ ok v
      → IsAppended w v at entry
  unfolding append new_event
  append-IsAppended w v at entry h =
      let x = new_event services w at entry (last_of services w.events) in
      elim (Result-cases (check_event x)) [
        | inr (e, c) ↦ absurd (ground (arith, h, c))
        | inl (e, c) ↦
            let (request, events) =
              build-listed w.request (w.events ++ e ∷ []) v (ground (arith, h, c)) in
            record {
              event = e;
              built = ground (arith, h, c);
              added = events;
              same_request = request;
              whole = check_event-sorted x e c;
            }
      ]

  -- The operation has added one event, which says what the caller said, and was allowed.
  pub record IsRecorded (o : Operation) (w v : Workflow) : Type 0 where
    pub event : ApprovalEvent
    pub at : Moment
    pub built : build services w.request (w.events ++ event ∷ []) ≡ ok v
    pub added : v.events ≡ w.events ++ event ∷ []
    pub same_request : v.request ≡ w.request
    pub kind : event.event_type ≡ kind_of o
    pub named : event.event_id ≡ id_of o
    pub author : event.actor_id ≡ author_of o
    pub reason : event.reason ≡ reason_of o
    pub read : iso8601 services.platform (moment_of o) ≡ ok at
    pub time : event.occurred_at ≡ at
    pub of_request : event.request_id ≡ w.request.request_id
    pub place : event.sequence ≡ length w.events
    pub allowed : Allowed services o at w event

  -- An entry that says what the caller said.
  pub record Fits (o : Operation) (entry : Entry) : Type 0 where
    pub kind : entry.event_type ≡ kind_of o
    pub named : entry.event_id ≡ id_of o
    pub author : entry.actor_id ≡ author_of o
    pub reason : entry.reason ≡ reason_of o

  pub IsAppended-IsRecorded :
      (o : Operation) (w v : Workflow) (at : Moment) (entry : Entry)
      → iso8601 services.platform (moment_of o) ≡ ok at
      → Fits o entry
      → append services w at entry ≡ ok v
      → ((e : ApprovalEvent)
          → e.actor_role ≡ entry.actor_role
          → e.details ≡ sorted pair_leb entry.details
          → Allowed services o at w e)
      → IsRecorded o w v
  unfolding new_event
  IsAppended-IsRecorded o w v at entry i f h allowed =
      let a = append-IsAppended w v at entry h in
      record {
        event = a.event;
        at = at;
        built = a.built;
        added = a.added;
        same_request = a.same_request;
        kind = ground (arith, a.whole, f.kind);
        named = ground (arith, a.whole, f.named);
        author = ground (arith, a.whole, f.author);
        reason = ground (arith, a.whole, f.reason);
        read = i;
        time = ground (arith, a.whole);
        of_request = ground (arith, a.whole);
        place = ground (arith, a.whole);
        allowed = allowed a.event (ground (arith, a.whole)) (ground (arith, a.whole));
      }
