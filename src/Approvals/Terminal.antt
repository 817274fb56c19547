-- ===== src/Approvals/Terminal.antt =====
-- approval_engine.py: a rejected or revoked workflow is closed.
use mathlib.Core.Path.{subst}
use night_recon.Prelude.{
  Bool, List, Result-cases, [], ap, arith, false, inl, inr, length, ok, raise, refl, true, ℕ, ◌++◌,
  ◌>>=◌, ◌||◌, ◌∷◌, ◌≡◌, ◌≤◌,
}
use night_recon.Approvals.Records.{ApprovalError, ApprovalEvent, ApprovalRequest}
use night_recon.Approvals.Payload.{Services}
use night_recon.Approvals.History.{
  Replay, Status, Workflow, approved_state, expired, is_terminal, pending, rejected_state,
  revoked_state,
}
use night_recon.Approvals.Replay.{build, replay, replay_event, start_replay}
use night_recon.Approvals.Invariant.{Fits, has_rejection, has_revocation}
use night_recon.Approvals.Quorum.{build-Built}
use night_recon.Approvals.Recorded.{Extends, perform-Extends}
use night_recon.Approvals.Operations.{Operation, perform}

Fits-is_terminal :
    (st : Status) (n k : ℕ) (rej rev : Bool)
    → Fits st n k rej rev
    → (rej || rev) ≡ true
    → is_terminal st ≡ true
unfolding is_terminal
Fits-is_terminal pending n k rej rev f h = ground (arith, f.1, f.2, h)
Fits-is_terminal approved_state n k rej rev f h = ground (arith, f.1, f.2, h)
Fits-is_terminal rejected_state n k rej rev f h = refl
Fits-is_terminal revoked_state n k rej rev f h = refl
Fits-is_terminal expired n k rej rev f h = cc

module _ (services : Services) where
  replay-snoc :
      (request : ApprovalRequest) (r final : Replay) (es : List ApprovalEvent) (e : ApprovalEvent)
      → replay services request r es ≡ ok final
      → replay services request r (es ++ e ∷ [])
        ≡ (replay_event services request final e >>= λ q. ok q)
  unfolding replay
  replay-snoc request r final [] e h = ground (arith, h)
  replay-snoc request r final (x ∷ es) e h =
      elim (Result-cases (replay_event services request r x)) [
        | inr (z, b) ↦ absurd (ground (arith, b, h))
        | inl (q, b) ↦ ground (arith, b, replay-snoc request q final es e (ground (arith, b, h)))
      ]

  closed_replay :
      (request : ApprovalRequest) (r : Replay) (e : ApprovalEvent) (q : Replay)
      → is_terminal r.state ≡ true
      → replay_event services request r e ≡ ok q
      → true ≡ false
  unfolding replay_event
  closed_replay request r e q t h = ground arith

  no_extension :
      (w v : Workflow)
      → 1 ≤ w.request.policy.required_approvals
      → build services w.request w.events ≡ ok w
      → (has_rejection w.events || has_revocation w.events) ≡ true
      → Extends services w v
      → true ≡ false
  unfolding build
  no_extension w v n b shut (e, x) =
      let built = build-Built w.request services w.events w n b in
      let final = built.final in
      let terminal : is_terminal final.state ≡ true =
        Fits-is_terminal final.state w.request.policy.required_approvals
          (length final.authority_sources) (has_rejection final.prior_events)
          (has_revocation final.prior_events) built.sound.fits
          (ground
            (arith, ap has_rejection built.complete, ap has_revocation built.complete, shut)) in
      let x' : build services w.request ((built.first ∷ built.rest) ++ e ∷ []) ≡ ok v =
        subst (λ (es : List ApprovalEvent). build services w.request (es ++ e ∷ []) ≡ ok v)
          built.listed x in
      let snoc =
        replay-snoc w.request (start_replay built.first) final built.rest e built.replayed in
      elim (Result-cases (replay_event services w.request final e)) [
        | inl (q, r) ↦ closed_replay w.request final e q terminal r
        | inr (z, r) ↦ ground (arith, snoc, r, x')
      ]

  -- Once the history of a workflow that passes its checks has a rejection or a revocation, every
  -- operation on it raises.
  pub perform-closed :
      (o : Operation) (w : Workflow)
      → 1 ≤ w.request.policy.required_approvals
      → build services w.request w.events ≡ ok w
      → (has_rejection w.events || has_revocation w.events) ≡ true
      → (e : ApprovalError) × (perform services o w ≡ raise e)
  perform-closed o w n b shut = elim (Result-cases (perform services o w)) [
    | inr (e, r) ↦ (e, r)
    | inl (v, r) ↦
        absurd (ground (arith, no_extension w v n b shut (perform-Extends services o w v r)))
  ]
