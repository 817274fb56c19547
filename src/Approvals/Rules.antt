-- ===== src/Approvals/Rules.antt =====
-- approval_engine.py: who may decide, delegate, escalate or revoke, and what the tests of the
-- operations say of it.
use night_recon.Prelude.{
  All, Bool, Bool-cases, List, List-cases, Option-cases, Result-cases, String, [], any, ap, arith,
  bool_Eq, contains, contains-sorted, eq_of_beq, eq_refl, false, get, inl, inr, list_Eq, nat_Eq,
  none, ok, option_Eq, pair_Eq, reverse, select, some, str_leb, string_Eq, sym, true, ℕ, ◌&&◌, ◌==◌,
  ◌∙◌, ◌∷◌, ◌≡◌, ◌≢◌, ◌≤◌,
}
use night_recon.Approvals.Records.{
  ApprovalEvent, ApprovalPrincipal, ApprovalRequest, Moment, find_principal,
}
use night_recon.Approvals.History.{Workflow, detail, in_force, is_approved, is_escalated, pending}
use night_recon.Approvals.Status.{approval_by, by_cutoff, eligible_roles_of, status}
use night_recon.Approvals.Payload.{Services}
use night_recon.Approvals.Workflow.{eligible_authority, find_delegation}

-- The request waits for decisions, and the principal is not kept from deciding on its own request.
pub record MayDecide (actor : String) (at : Moment) (w : Workflow) : Type 0 where
  pub waiting : status at w ≡ pending
  pub separate : w.request.policy.requester_may_approve ≡ false → actor ≢ w.request.requested_by

-- The role of an event is one that the policy accepts.
pub record HasRole (w : Workflow) (e : ApprovalEvent) : Type 0 where
  pub role : String
  pub its_role : e.actor_role ≡ some role
  pub eligible : contains role w.request.policy.eligible_roles ≡ true

-- The principal whose authority a decision draws on is written down.
pub record HasSource (e : ApprovalEvent) : Type 0 where
  pub source : String
  pub recorded : e.details ≡ ("authority_source", source) ∷ []

-- No approval is by this author.
abbrev pub NotApprovedBy : String → List ApprovalEvent → Type 0
NotApprovedBy actor es =
    All (λ (x : ApprovalEvent). is_approved x.event_type ≡ true → x.actor_id ≢ actor) es

-- No approval up to a time draws on the source.
abbrev pub NotDrawnOn : String → ℕ → List ApprovalEvent → Type 0
NotDrawnOn source at es =
    All
      (λ (x : ApprovalEvent).
        is_approved x.event_type ≡ true
        → x.occurred_at.instant ≤ at
        → get "authority_source" x.details ≢ some source)
      es

-- No escalation was up to a time.
abbrev pub NotEscalated : ℕ → List ApprovalEvent → Type 0
NotEscalated at es =
    All (λ (x : ApprovalEvent). x.occurred_at.instant ≤ at → is_escalated x.event_type ≡ false) es

pub not_approved_by :
    (actor : String) (es : List ApprovalEvent)
    → any (λ (e : ApprovalEvent). e.actor_id == actor) (select (approval_by none) es) ≡ false
    → NotApprovedBy actor es
unfolding any select by_cutoff
not_approved_by actor [] h = tt
not_approved_by actor (x ∷ es) h = (
  λ a i. ground (arith, h, a, i, string_Eq.equal_iff x.actor_id actor),
  not_approved_by actor es (ground (arith, h)),
)

pub not_drawn_on :
    (source : String) (at : ℕ) (es : List ApprovalEvent)
    → any
        (λ (e : ApprovalEvent). detail "authority_source" e == some source)
        (select (approval_by (some at)) es)
      ≡ false
    → NotDrawnOn source at es
unfolding any select by_cutoff
not_drawn_on source at [] h = tt
not_drawn_on source at (x ∷ es) h = (
  λ a l i. ground (arith, h, a, l, i, eq_refl source),
  not_drawn_on source at es (ground (arith, h)),
)

pub not_escalated :
    (at : ℕ) (es : List ApprovalEvent)
    → any (λ (e : ApprovalEvent). is_escalated e.event_type && by_cutoff (some at) e) es ≡ false
    → NotEscalated at es
unfolding any by_cutoff
not_escalated at [] h = tt
not_escalated at (x ∷ es) h = (λ l. ground (arith, h, l), not_escalated at es (ground (arith, h)))

contains-select :
    (p : String → Bool) (role : String) (rs : List String)
    → contains role (select p rs) ≡ true
    → p role ≡ true
unfolding contains select
contains-select p role [] h = absurd (ground (arith, h))
contains-select p role (x ∷ rs) h = elim (Bool-cases (p x)) [
  | inr b ↦ contains-select p role rs (ground (arith, h, b))
  | inl b ↦ elim (Bool-cases (x == role)) [
    | inl e ↦ ap p (sym (eq_of_beq x role e)) ∙ b
    | inr e ↦ contains-select p role rs (ground (arith, h, b, e))
  ]
]

pub eligible_roles_of-eligible :
    (request : ApprovalRequest) (q : ApprovalPrincipal) (role : String) (roles : List String)
    → eligible_roles_of request q ≡ role ∷ roles
    → contains role request.policy.eligible_roles ≡ true
unfolding eligible_roles_of contains
eligible_roles_of-eligible request q role roles h =
    let kept = select (λ r. contains r request.policy.eligible_roles) q.roles in
    contains-select (λ r. contains r request.policy.eligible_roles) role q.roles
      (sym (contains-sorted str_leb role kept) ∙ ground (arith, h, eq_refl role))

module _ (services : Services) where
  find_delegation-eligible :
      (request : ApprovalRequest) (actor : String) (at : ℕ) (es : List ApprovalEvent)
      (role source : String)
      → find_delegation services request actor at es ≡ ok (role, source)
      → contains role request.policy.eligible_roles ≡ true
  unfolding find_delegation
  find_delegation-eligible request actor at [] role source h = absurd (ground (arith, h))
  find_delegation-eligible request actor at (x ∷ es) role source h =
      let rest = find_delegation-eligible request actor at es role source in
      elim (Option-cases (detail "delegated_role" x)) [
        | inl n ↦ rest (ground (arith, h, n))
        | inr (r, n) ↦ elim (Result-cases (in_force services.platform x at)) [
          | inr (e, f) ↦ ground (arith, h, n, f, rest)
          | inl (valid, f) ↦ ground (arith, h, n, f, rest)
        ]
      ]

  pub eligible_authority-eligible :
      (w : Workflow) (actor : String) (at : ℕ) (role source : String)
      → eligible_authority services w actor at ≡ ok (role, source)
      → contains role w.request.policy.eligible_roles ≡ true
  unfolding eligible_authority
  eligible_authority-eligible w actor at role source h =
      elim (Result-cases (find_principal actor w.request.principals)) [
        | inr (e, f) ↦ absurd (ground (arith, h, f))
        | inl (q, f) ↦ elim (List-cases (eligible_roles_of w.request q)) [
          | inl n ↦
              find_delegation-eligible w.request actor at (reverse w.events) role source
                (ground (arith, h, f, n))
          | inr (r, roles, n) ↦
              eligible_roles_of-eligible w.request q role roles (ground (arith, h, f, n))
        ]
      ]
