-- ===== src/Approvals/Standing.antt =====
-- approval_engine.py: what the status of a workflow says about its history.
use mathlib.Core.Path.{subst}
use night_recon.Prelude.{
  All, Bool, List, Option, String, [], any, ap, arith, false, find, if◌then◌else◌, leb, length, map,
  none, ok, refl, select, some, sym, true, ℕ, ◌&&◌, ◌<◌, ◌∙◌, ◌∷◌, ◌≡◌, ◌≤◌,
}
use night_recon.Approvals.Records.{ApprovalEvent, ApprovalRequest, Moment}
use night_recon.Approvals.Payload.{Services}
use night_recon.Approvals.History.{
  Replay, Status, Workflow, approved_state, detail, expired, is_approved, is_rejected, is_revoked,
  pending, rejected_state, revoked_state,
}
use night_recon.Approvals.Replay.{build, replay, start_replay}
use night_recon.Approvals.Status.{approval_by, approval_events, by_cutoff, is_some, status}
use night_recon.Approvals.Invariant.{Fits, Sound, approvals, has_rejection, has_revocation}
use night_recon.Approvals.Quorum.{
  Built, Independent, Sound-Independent, build-Built, select-Independent, select-both,
}

is_some-find : (p : ApprovalEvent → Bool) (es : List ApprovalEvent) → is_some (find p es) ≡ any p es
unfolding find any
is_some-find p [] = refl
is_some-find p (e ∷ es) = ground (arith, is_some-find p es)

pub length-map : {A B : Type 0} (f : A → B) (xs : List A) → length (map f xs) ≡ length xs
length-map f [] = refl
length-map f (x ∷ xs) = omega (arith, length-map f xs)

-- every event stands at or before an instant
abbrev pub AllBy : ℕ → List ApprovalEvent → Type 0
AllBy at es = All (λ (e : ApprovalEvent). e.occurred_at.instant ≤ at) es

any-AllBy :
    (p : ApprovalEvent → Bool) (at : ℕ) (es : List ApprovalEvent)
    → AllBy at es
    → any (λ e. p e && by_cutoff (some at) e) es ≡ any p es
unfolding any by_cutoff
any-AllBy p at [] a = refl
any-AllBy p at (e ∷ es) a = ground (arith, a.0, any-AllBy p at es a.1)

select-AllBy :
    (p : ApprovalEvent → Bool) (at : ℕ) (es : List ApprovalEvent)
    → AllBy at es
    → select (λ e. p e && by_cutoff (some at) e) es ≡ select p es
unfolding select by_cutoff
select-AllBy p at [] a = refl
select-AllBy p at (e ∷ es) a = ground (arith, a.0, select-AllBy p at es a.1)

-- the status in terms of what counts at the time
abbrev pub status_of : Bool → Bool → Bool → Bool → Status
status_of rev rej late full =
    if rev
    then revoked_state
    else if rej
    then rejected_state
    else if late
    then expired
    else if full
    then approved_state
    else pending

pub status-eq :
    (at : Moment) (w : Workflow)
    → status at w
      ≡ status_of
          (any
            (λ (e : ApprovalEvent). is_revoked e.event_type && by_cutoff (some at.instant) e)
            w.events)
          (any
            (λ (e : ApprovalEvent). is_rejected e.event_type && by_cutoff (some at.instant) e)
            w.events)
          (leb w.request.expires_at.instant at.instant)
          (leb w.request.policy.required_approvals (length (approval_events (some at.instant) w)))
unfolding status
status-eq at w =
    rw
      (
        is_some-find
            (λ (e : ApprovalEvent). is_revoked e.event_type && by_cutoff (some at.instant) e)
            w.events,
        is_some-find
            (λ (e : ApprovalEvent). is_rejected e.event_type && by_cutoff (some at.instant) e)
            w.events,
      )
      refl

pub status_of-approved :
    (rev rej late full : Bool)
    → status_of rev rej late full ≡ approved_state
    → (late ≡ false) × (full ≡ true)
status_of-approved rev rej late full h = (ground arith, ground arith)

select-none : (es : List ApprovalEvent) → select (approval_by none) es ≡ approvals es
unfolding select by_cutoff
select-none [] = refl
select-none (e ∷ es) = ground (arith, select-none es)

Fits-status_of :
    (st : Status) (n k : ℕ) (rej rev : Bool)
    → Fits st n k rej rev
    → status_of rev rej false (leb n k) ≡ st
Fits-status_of pending n k rej rev f = ground arith
Fits-status_of approved_state n k rej rev f = ground arith
Fits-status_of rejected_state n k rej rev f = ground arith
Fits-status_of revoked_state n k rej rev f = ground arith
Fits-status_of expired n k rej rev f = cc

Fits-le : (st : Status) (n k : ℕ) (rej rev : Bool) → Fits st n k rej rev → k ≤ n
Fits-le pending n k rej rev f = omega (arith, f.0)
Fits-le approved_state n k rej rev f = omega (arith, f.0)
Fits-le rejected_state n k rej rev f = omega (arith, f.0)
Fits-le revoked_state n k rej rev f = omega (arith, f.0)
Fits-le expired n k rej rev f = cc

module _ (services : Services) where
  length-approvals :
      (request : ApprovalRequest) (r : Replay)
      → Sound request r
      → length (approvals r.prior_events) ≡ length r.authority_sources
  length-approvals request r s = ground (
    arith,
    length-map (λ (e : ApprovalEvent). detail "authority_source" e) (approvals r.prior_events),
    ap (length {A = Option String}) s.drawing,
    length-map {A = String} some r.authority_sources,
  )

  -- What it means that a request is approved at a time.
  pub record HasQuorum (at : Moment) (w : Workflow) : Type 0 where
    pub live : at.instant < w.request.expires_at.instant
    pub enough : w.request.policy.required_approvals ≤ length (approval_events (some at.instant) w)
    pub independent : Independent w.request (approval_events (some at.instant) w)

  -- Where a workflow that passes its checks is approved, the request has not expired, and at least
  -- the required number of approvals count by then: their authors differ, the principals whose
  -- authority they draw on differ and hold a role that the policy accepts, and unless the policy
  -- admits it neither are the requester.
  pub status-HasQuorum :
      (request : ApprovalRequest) (events : List ApprovalEvent) (w : Workflow) (at : Moment)
      → 1 ≤ request.policy.required_approvals
      → build services request events ≡ ok w
      → status at w ≡ approved_state
      → HasQuorum at w
  status-HasQuorum request events w at n b st =
      let built = build-Built request services events w n b in
      let approving = λ (e : ApprovalEvent). is_approved e.event_type in
      let facts = status_of-approved _ _ _ _ (sym (status-eq at w) ∙ st) in
      record {
        live = ground (arith, facts.0);
        enough = ground (arith, facts.1);
        independent =
            rw (built.same_request, select-both approving (by_cutoff (some at.instant)) w.events)
              (select-Independent request (by_cutoff (some at.instant)) (approvals w.events) (
                subst (λ (es : List ApprovalEvent). Independent request (approvals es))
                  built.complete (Sound-Independent request built.final built.sound)));
      }

  events_of :
      (request : ApprovalRequest) (first : ApprovalEvent) (rest : List ApprovalEvent) (w : Workflow)
      → build services request (first ∷ rest) ≡ ok w
      → w.events ≡ first ∷ rest
  unfolding build
  events_of request first rest w b = ground arith

  same_final :
      (request : ApprovalRequest) (first : ApprovalEvent) (rest : List ApprovalEvent)
      (final : Replay) (w : Workflow)
      → build services request (first ∷ rest) ≡ ok w
      → replay services request (start_replay first) rest ≡ ok final
      → (built : Built request services w) → built.final ≡ final
  same_final request first rest final w b r built =
      ground (arith, events_of request first rest w b, built.listed, built.replayed, r)

  status-final :
      (request : ApprovalRequest) (final : Replay) (w : Workflow) (at : Moment)
      → Sound request final
      → final.prior_events ≡ w.events
      → w.request ≡ request
      → AllBy at.instant w.events
      → at.instant < request.expires_at.instant
      → status at w ≡ final.state
  status-final request final w at s c same a live =
      status-eq at w
      ∙ ground (
        arith,
        any-AllBy (λ (e : ApprovalEvent). is_revoked e.event_type) at.instant w.events a,
        any-AllBy (λ (e : ApprovalEvent). is_rejected e.event_type) at.instant w.events a,
        select-AllBy (λ (e : ApprovalEvent). is_approved e.event_type) at.instant w.events a,
        ap has_rejection c,
        ap has_revocation c,
        ap (λ (es : List ApprovalEvent). length (approvals es)) c,
        length-approvals request final s,
        same,
        live,
        Fits-status_of final.state request.policy.required_approvals
            (length final.authority_sources) (has_rejection final.prior_events)
            (has_revocation final.prior_events) s.fits,
      )

  -- Before expiry, from the last event on, the status of a workflow that passes its checks is the
  -- state in which the replay of its history ends.
  pub status-replay :
      (request : ApprovalRequest) (first : ApprovalEvent) (rest : List ApprovalEvent)
      (final : Replay) (w : Workflow) (at : Moment)
      → 1 ≤ request.policy.required_approvals
      → build services request (first ∷ rest) ≡ ok w
      → replay services request (start_replay first) rest ≡ ok final
      → AllBy at.instant (first ∷ rest)
      → at.instant < request.expires_at.instant
      → status at w ≡ final.state
  status-replay request first rest final w at n b r a live =
      let built = build-Built request services (first ∷ rest) w n b in
      let same : built.final ≡ final = same_final request first rest final w b r built in
      status-final request built.final w at built.sound built.complete built.same_request
        (subst (AllBy at.instant) (sym (events_of request first rest w b)) a) live
      ∙ ap (λ (q : Replay). q.state) same

  -- A workflow that passes its checks never has more approvals than required.
  pub approvals-le-required :
      (request : ApprovalRequest) (events : List ApprovalEvent) (w : Workflow)
      → 1 ≤ request.policy.required_approvals
      → build services request events ≡ ok w
      → length (approval_events none w) ≤ w.request.policy.required_approvals
  approvals-le-required request events w n b =
      let built = build-Built request services events w n b in
      let s = built.sound in
      ground (
        arith,
        built.same_request,
        select-none w.events,
        ap (λ (es : List ApprovalEvent). length (approvals es)) built.complete,
        length-approvals request built.final s,
        Fits-le built.final.state request.policy.required_approvals
            (length built.final.authority_sources) (has_rejection built.final.prior_events)
            (has_revocation built.final.prior_events) s.fits,
      )
