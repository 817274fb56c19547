-- ===== src/Authority/Leases.antt =====
-- transactional_policy_authority.py: what `reserve` asks, and that its reservation passes
-- `validate_reserved`.
use night_recon.Prelude.{
  Bool-cases, Option-cases, Result-cases, [], ap, arith, bool_Eq, contains, contains-snoc_self,
  false, get, get-put_self, inl, inr, list_Eq, nat_Eq, ok, option_Eq, pair_Eq, put, some, string_Eq,
  sym, true, ℕ, ◌++◌, ◌+◌, ◌-◌, ◌<◌, ◌∙◌, ◌∷◌, ◌≡◌,
}
use night_recon.Authorization.{Target, address_Eq}
use night_recon.Policy.{
  ActionRequest, AuthorizationDecision, Datetime, Platform, check_permissions, check_request,
  check_window, evaluate_action, post_init,
}
use night_recon.Policy.Decisions.{
  IsPermitted, IsStillPermitted, evaluate_action-IsPermitted, evaluate_reserved_action_iff,
}
use night_recon.Policy.Store.Changes.{post_init-eq-ok}
use night_recon.Authority.{
  Action, Authority, ReservedDecision, Row, as_request, current_policy, is_action_id, reserve,
  take_place, validate_reserved,
}

module _ (p : Platform) where
  -- What a successful `reserve` found.
  pub record Reserves (a : Action) (now : Datetime) (s : Authority) (x : ReservedDecision)
      : Type 0 where
    pub row : Row
    pub found : get a.engagement_id s.rows ≡ some row
    pub built : post_init p (current_policy row) ≡ ok (current_policy row)
    pub target : Target
    pub checked : check_request p (as_request a row.engagement_status) now ≡ ok target
    pub permitted :
        IsPermitted p (current_policy row) (as_request a row.engagement_status) target now.instant
    pub fresh : contains (a.engagement_id, a.action_id) s.reservations ≡ false
    pub used : x.used ≡ row.actions_used + 1
    pub sum : x.used + x.remaining ≡ row.policy.max_actions
    pub stored : (reserve p a now s).1 ≡ record s {
      reservations = s.reservations ++ (a.engagement_id, a.action_id) ∷ [];
      rows =
          put a.engagement_id
            (record row { actions_used = row.actions_used + 1; revision = row.revision + 1 })
            s.rows;
    }

  take_place-fresh :
      (a : Action) (row : Row) (d : AuthorizationDecision) (s : Authority) (x : ReservedDecision)
      (t : Authority)
      → take_place p a row d s ≡ ok (x, t)
      → (d.allowed ≡ true)
        × (contains (a.engagement_id, a.action_id) s.reservations ≡ false)
        × (x.used ≡ row.actions_used + 1)
        × (x.remaining ≡ row.policy.max_actions - row.actions_used - 1)
        × (t ≡ record s {
          reservations = s.reservations ++ (a.engagement_id, a.action_id) ∷ [];
          rows =
              put a.engagement_id
                (record row { actions_used = row.actions_used + 1; revision = row.revision + 1 })
                s.rows;
        })
  unfolding take_place
  take_place-fresh a row d s x t h = elim (Bool-cases d.allowed) [
    | inr b ↦ absurd (ground (arith, b, h))
    | inl go ↦ elim (Bool-cases (contains (a.engagement_id, a.action_id) s.reservations)) [
      | inl b ↦ absurd (ground (arith, go, b, h))
      | inr new ↦ (
        go,
        new,
        ground (arith, go, new, h),
        ground (arith, go, new, h),
        ground (arith, go, new, h),
      )
    ]
  ]

  reserve-Reserves-decided :
      (a : Action) (now : Datetime) (s : Authority) (row : Row) (d : AuthorizationDecision)
      (x : ReservedDecision) (t : Authority)
      → get a.engagement_id s.rows ≡ some row
      → post_init p (current_policy row) ≡ ok (current_policy row)
      → evaluate_action p (current_policy row) (as_request a row.engagement_status) now ≡ ok d
      → take_place p a row d s ≡ ok (x, t)
      → (reserve p a now s).1 ≡ t
      → Reserves a now s x
  reserve-Reserves-decided a now s row d x t f built e h r =
      let (go, new, n, m, eq) = take_place-fresh a row d s x t h in
      let (target, c, permitted) =
        evaluate_action-IsPermitted p (current_policy row) (as_request a row.engagement_status) now
          (d, e, go) in
      record {
        row = row;
        found = f;
        built = built;
        target = target;
        checked = c;
        permitted = permitted;
        fresh = new;
        used = n;
        sum = omega (arith, n, m, permitted.budget);
        stored = r ∙ eq;
      }

  -- A successful `reserve` found the engagement's policy well formed and permitting the action at
  -- that time, its count of used actions included, and the action not yet reserved; it counts and
  -- records the action once, and reports the use and the rest of the budget.
  pub reserve-Reserves :
      (a : Action) (now : Datetime) (s : Authority) (x : ReservedDecision)
      → (reserve p a now s).0 ≡ ok x
      → Reserves a now s x
  unfolding reserve
  reserve-Reserves a now s x h = elim (Bool-cases (is_action_id a.action_id)) [
    | inr b ↦ absurd (ground (arith, b, h))
    | inl i ↦ elim (Option-cases (get a.engagement_id s.rows)) [
      | inl n ↦ absurd (ground (arith, i, n, h))
      | inr (row, f) ↦ elim (Result-cases (post_init p (current_policy row))) [
        | inr (e, b) ↦ absurd (ground (arith, i, f, b, h))
        | inl (policy, built) ↦
            let eq = (post_init-eq-ok p (current_policy row) policy built).0 in
            elim (Result-cases
              (evaluate_action p policy (as_request a row.engagement_status) now)) [
                | inr (e, b) ↦ absurd (ground (arith, i, f, built, b, h))
                | inl (d, e) ↦ elim (Result-cases (take_place p a row d s)) [
                  | inr (z, b) ↦ absurd (ground (arith, i, f, built, e, b, h))
                  | inl ((y, t), b) ↦
                      reserve-Reserves-decided a now s row d x t f (built ∙ ap ok eq)
                        (rw (sym eq) e) (ground (arith, i, f, built, e, b, h))
                        (ground (arith, i, f, built, e, b))
                ]
              ]
      ]
    ]
  ]

  -- the row of a reserved action, one action later
  abbrev later : Row → Row
  later row = record row { actions_used = row.actions_used + 1; revision = row.revision + 1 }

  later-built :
      (row : Row)
      → post_init p (current_policy row) ≡ ok (current_policy row)
      → row.actions_used < row.policy.max_actions
      → post_init p (current_policy (later row)) ≡ ok (current_policy (later row))
  unfolding post_init check_window check_permissions
  later-built row h room = ground arith

  later-IsStillPermitted :
      (row : Row) (request : ActionRequest) (target : Target) (now : ℕ)
      → IsPermitted p (current_policy row) request target now
      → IsStillPermitted p (current_policy (later row)) request target now
  later-IsStillPermitted row request target now h = record {
    stands = record {
      active = h.stands.active;
      live = h.stands.live;
      start = h.stands.start;
      start_read = h.stands.start_read;
      started = h.stands.started;
      end = h.stands.end;
      end_read = h.stands.end_read;
      lasting = h.stands.lasting;
      permitted = h.stands.permitted;
    };
    scope = record {
      rules = h.scope.rules;
      rules_read = h.scope.rules_read;
      inside = h.scope.inside;
    };
    approved = record { high = h.approved.high; marked = h.approved.marked };
  }

  validate_reserved-eq-ok :
      (a : Action) (now : Datetime) (t : Authority) (row : Row) (target : Target)
      → get a.engagement_id t.rows ≡ some row
      → contains (a.engagement_id, a.action_id) t.reservations ≡ true
      → post_init p (current_policy row) ≡ ok (current_policy row)
      → check_request p (as_request a row.engagement_status) now ≡ ok target
      → IsStillPermitted p
          (current_policy row)
          (as_request a row.engagement_status)
          target
          now.instant
      → validate_reserved p a now t ≡ ok tt
  unfolding validate_reserved
  validate_reserved-eq-ok a now t row target f c built checked h =
      let (d, e, go) =
        (evaluate_reserved_action_iff p (current_policy row) (as_request a row.engagement_status)
            now target checked).1
          h in
      ground (arith, f, c, built, e, go)

  -- An action that `reserve` accepts passes `validate_reserved` at the same time right after, even
  -- if it took the last place in the budget.
  pub validate_reserved-reserve :
      (a : Action) (now : Datetime) (s : Authority) (x : ReservedDecision)
      → (reserve p a now s).0 ≡ ok x
      → validate_reserved p a now (reserve p a now s).1 ≡ ok tt
  validate_reserved-reserve a now s x h =
      let r = reserve-Reserves a now s x h in
      validate_reserved-eq-ok a now (reserve p a now s).1 (later r.row) r.target
        (ground (arith, r.stored, get-put_self a.engagement_id (later r.row) s.rows))
        (ground (arith, r.stored, contains-snoc_self (a.engagement_id, a.action_id) s.reservations))
        (later-built r.row r.built r.permitted.budget) r.checked
        (later-IsStillPermitted r.row (as_request a r.row.engagement_status) r.target now.instant
          r.permitted)
