-- ===== src/Approvals/Quorum.antt =====
-- approval_engine.py: what stands behind a request that counts as approved.
use night_recon.Prelude.{
  All, Bool, Bool-cases, Eq, List, Option, Result-cases, String, [], any, arith, bool_Eq, contains,
  false, inl, inr, list_Eq, map, nat_Eq, ok, option_Eq, pair_Eq, refl, select, some, string_Eq,
  true, unique, ◌&&◌, ◌∙◌, ◌∷◌, ◌≡◌, ◌≤◌,
}
use night_recon.Approvals.Records.{
  ApprovalEvent, ApprovalRequest, EventType, approved, delegated, escalated, rejected, requested,
  revoked,
}
use night_recon.Approvals.Payload.{Services}
use night_recon.Approvals.History.{
  Replay, Workflow, detail, is_approved, is_delegated, is_rejected, is_requested, is_revoked,
}
use night_recon.Approvals.Replay.{build, check_first, replay, start_replay}
use night_recon.Approvals.Sources.{IsSeparate, IsSource}
use night_recon.Approvals.Invariant.{Sound, actors, approvals, sources}
use night_recon.Approvals.Soundness.{replay-Sound}

contains-map-select :
    {B : Type 0} ⦃b : Eq B⦄ (f : ApprovalEvent → B) (p : ApprovalEvent → Bool) (x : B)
    (es : List ApprovalEvent)
    → contains x (map f es) ≡ false
    → contains x (map f (select p es)) ≡ false
unfolding contains select
contains-map-select f p x [] h = refl
contains-map-select f p x (e ∷ es) h = ground (arith, contains-map-select f p x es)

unique-map-select :
    {B : Type 0} ⦃b : Eq B⦄ (f : ApprovalEvent → B) (p : ApprovalEvent → Bool)
    (es : List ApprovalEvent)
    → unique (map f es) ≡ true
    → unique (map f (select p es)) ≡ true
unfolding unique select
unique-map-select f p [] h = refl
unique-map-select f p (e ∷ es) h =
    ground (arith, unique-map-select f p es, contains-map-select f p (f e) es)

All-map-select :
    {B : Type 0} (P : B → Type 0) (f : ApprovalEvent → B) (p : ApprovalEvent → Bool)
    (es : List ApprovalEvent)
    → All P (map f es)
    → All P (map f (select p es))
unfolding select
All-map-select P f p [] a = tt
All-map-select P f p (e ∷ es) a = elim (Bool-cases (p e)) [
  | inl y ↦ rw y (a.0, All-map-select P f p es a.1)
  | inr n ↦ rw n (All-map-select P f p es a.1)
]

pub select-both :
    (p q : ApprovalEvent → Bool) (es : List ApprovalEvent)
    → select (λ e. p e && q e) es ≡ select q (select p es)
unfolding select
select-both p q [] = refl
select-both p q (e ∷ es) = ground (arith, select-both p q es)

contains-map-some :
    (x : String) (xs : List String) → contains (some x) (map some xs) ≡ contains x xs
unfolding contains
contains-map-some x [] = refl
contains-map-some x (y ∷ ys) = ground (arith, contains-map-some x ys)

unique-map-some : (xs : List String) → unique (map some xs) ≡ unique xs
unfolding unique
unique-map-some [] = refl
unique-map-some (x ∷ xs) = ground (arith, unique-map-some xs, contains-map-some x xs)

module _ (request : ApprovalRequest) where
  -- a detail that names a principal with eligible authority
  abbrev pub NamesSource : Option String → Type 0
  NamesSource o = (s : String) × (o ≡ some s) × IsSource request s

  All-map-some : (ss : List String) → All (IsSource request) ss → All NamesSource (map some ss)
  All-map-some [] a = tt
  All-map-some (s ∷ ss) a = ((s, refl, a.0), All-map-some ss a.1)

  -- Approvals by different principals, none of them barred from deciding, that draw on different
  -- principals' authority.
  pub record Independent (es : List ApprovalEvent) : Type 0 where
    pub authors : unique (actors es) ≡ true
    pub separate : All (IsSeparate request) (actors es)
    pub origins : unique (sources es) ≡ true
    pub entitled : All NamesSource (sources es)

  pub Sound-Independent : (r : Replay) → Sound request r → Independent (approvals r.prior_events)
  Sound-Independent r s = record {
    authors = rw s.acting s.once;
    separate = rw s.acting s.separate;
    origins = rw s.drawing (unique-map-some r.authority_sources ∙ s.counted);
    entitled = rw s.drawing (All-map-some r.authority_sources s.entitled);
  }

  pub select-Independent :
      (p : ApprovalEvent → Bool) (es : List ApprovalEvent)
      → Independent es
      → Independent (select p es)
  select-Independent p es i = record {
    authors = unique-map-select (λ (e : ApprovalEvent). e.actor_id) p es i.authors;
    separate =
        All-map-select (IsSeparate request) (λ (e : ApprovalEvent). e.actor_id) p es i.separate;
    origins = unique-map-select (λ (e : ApprovalEvent). detail "authority_source" e) p es i.origins;
    entitled =
        All-map-select NamesSource (λ (e : ApprovalEvent). detail "authority_source" e) p es
          i.entitled;
  }

  module _ (services : Services) where
    -- what `build` establishes, the policy asking for at least one approval
    pub record Built (w : Workflow) : Type 0 where
      pub same_request : w.request ≡ request
      pub first : ApprovalEvent
      pub rest : List ApprovalEvent
      pub listed : w.events ≡ first ∷ rest
      pub opening : is_requested first.event_type ≡ true
      pub final : Replay
      pub replayed : replay services request (start_replay first) rest ≡ ok final
      pub sound : Sound request final
      pub complete : final.prior_events ≡ w.events

    requested-only : (t : EventType) → is_requested t ≡ true → t ≡ requested
    unfolding is_requested
    requested-only requested h = refl
    requested-only approved h = cc
    requested-only rejected h = cc
    requested-only delegated h = cc
    requested-only escalated h = cc
    requested-only revoked h = cc

    start_replay-Sound :
        (first : ApprovalEvent)
        → is_requested first.event_type ≡ true
        → 1 ≤ request.policy.required_approvals
        → Sound request (start_replay first)
    unfolding select any unique is_approved is_rejected is_revoked is_delegated
    start_replay-Sound first o' n =
        let o = requested-only first.event_type o' in
        record {
          acting = ground (arith, o);
          drawing = ground (arith, o);
          once = refl;
          counted = refl;
          separate = tt;
          entitled = tt;
          delegations = (λ d. absurd (ground (arith, o, d)), tt);
          fits = (n, ground (arith, o), ground (arith, o));
        }

    pub build-Built :
        (events : List ApprovalEvent) (w : Workflow)
        → 1 ≤ request.policy.required_approvals
        → build services request events ≡ ok w
        → Built w
    unfolding build check_first
    build-Built [] w n h = absurd (ground (arith, h))
    build-Built (first ∷ rest) w n h =
        elim (Result-cases (replay services request (start_replay first) rest)) [
          | inr (x, b) ↦ absurd (ground (arith, b, h))
          | inl (final, b) ↦
              let opening : is_requested first.event_type ≡ true = ground (arith, h) in
              let (s, c) =
                replay-Sound services request (start_replay first) final rest
                  (start_replay-Sound first opening n) b in
              record {
                same_request = ground (arith, b, h);
                first = first;
                rest = rest;
                listed = ground (arith, b, h);
                opening = opening;
                final = final;
                replayed = b;
                sound = s;
                complete = ground (arith, c, b, h);
              }
        ]
