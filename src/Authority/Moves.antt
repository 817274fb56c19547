-- ===== src/Authority/Moves.antt =====
-- What one call can do to the tables of transactional_policy_authority.py.
use mathlib.Core.Path.{subst}
use night_recon.Prelude.{
  Bool-cases, Dict, List, Option-cases, Result-cases, String, [], arith, bool_Eq, contains, false,
  get, inl, inr, list_Eq, nat_Eq, none, ok, option_Eq, pair_Eq, put, refl, some, string_Eq, true,
  ◌++◌, ◌+◌, ◌<◌, ◌∷◌, ◌≡◌,
}
use night_recon.Policy.{
  AuthorizationDecision, Datetime, Platform, Policy, evaluate_action, post_init,
}
use night_recon.Policy.Decisions.{evaluate_action-IsPermitted}
use night_recon.Policy.Store.Changes.{post_init-eq-ok}
use night_recon.Authority.{
  Action, Authority, Call, Row, as_request, check_import, current_policy, import_legacy, imports,
  insert_row, insert_rows, is_action_id, is_status, new_row, register, registers, reserve, reserves,
  revoke, revokes, set_status, sets_status, step, take_place, transaction,
}

pub data Move (s t : Authority) : Type 0 where
  same : t.rows ≡ s.rows → t.reservations ≡ s.reservations → Move s t
  added :
      (id : String) (row : Row)
      → get id s.rows ≡ none
      → t.rows ≡ put id row s.rows
      → t.reservations ≡ s.reservations
      → Move s t
  edited :
      (id : String) (row old : Row)
      → get id s.rows ≡ some old
      → row.actions_used ≡ old.actions_used
      → row.policy.max_actions ≡ old.policy.max_actions
      → (old.policy.revoked ≡ true → row.policy.revoked ≡ true)
      → t.rows ≡ put id row s.rows
      → t.reservations ≡ s.reservations
      → Move s t
  taken :
      (id action : String) (row old : Row)
      → get id s.rows ≡ some old
      → contains (id, action) s.reservations ≡ false
      → old.policy.revoked ≡ false
      → old.actions_used < old.policy.max_actions
      → row ≡ record old { actions_used = old.actions_used + 1; revision = old.revision + 1 }
      → t.rows ≡ put id row s.rows
      → t.reservations ≡ s.reservations ++ (id, action) ∷ []
      → Move s t

-- several moves, one after another
pub data Moves : Authority → Authority → Type 0 where
  here : {s : Authority} → Moves s s
  next : {s t u : Authority} → Move s t → Moves t u → Moves s u

one : {s t : Authority} → Move s t → Moves s t
one m = next m here

insert_row-Move :
    (policy : Policy) (status : String) (s t : Authority) (u : Unit {0})
    → insert_row policy status s ≡ ok (u, t)
    → Move s t
unfolding insert_row
insert_row-Move policy status s t u h = elim (Option-cases (get policy.engagement_id s.rows)) [
  | inr (old, f) ↦ absurd (ground (arith, f, h))
  | inl n ↦
      added policy.engagement_id (new_row policy status) n (ground (arith, n, h))
        (ground (arith, n, h))
]

register-Move :
    (policy : Policy) (status : String) (s : Authority) → Move s (register policy status s).1
unfolding register
register-Move policy status s = elim (Bool-cases (is_status status)) [
  | inr bad ↦ same (ground (arith, bad)) (ground (arith, bad))
  | inl good ↦ elim (Result-cases (insert_row policy status s)) [
    | inr (e, b) ↦ same (ground (arith, good, b)) (ground (arith, good, b))
    | inl ((u, t), b) ↦
        subst (Move s) (ground (arith, good, b)) (insert_row-Move policy status s t u b)
  ]
]

set_status-Move : (id status : String) (s : Authority) → Move s (set_status id status s).1
unfolding set_status
set_status-Move id status s = elim (Bool-cases (is_status status)) [
  | inr bad ↦ same (ground (arith, bad)) (ground (arith, bad))
  | inl good ↦ elim (Option-cases (get id s.rows)) [
    | inl n ↦ same (ground (arith, good, n)) (ground (arith, good, n))
    | inr (old, f) ↦
        edited id (record old { engagement_status = status; revision = old.revision + 1 }) old f
          refl refl (λ r. r) (ground (arith, good, f)) (ground (arith, good, f))
  ]
]

revoke-Move : (id : String) (s : Authority) → Move s (revoke id s).1
unfolding revoke
revoke-Move id s = elim (Option-cases (get id s.rows)) [
  | inl n ↦ same (ground (arith, n)) (ground (arith, n))
  | inr (old, f) ↦
      edited id
        (record old { policy = record old.policy { revoked = true }; revision = old.revision + 1 })
        old f refl refl (λ r. refl) (ground (arith, f)) (ground (arith, f))
]

module _ (p : Platform) where
  take_place-Move :
      (a : Action) (row : Row) (d : AuthorizationDecision) (s : Authority)
      → get a.engagement_id s.rows ≡ some row
      → (d.allowed ≡ true
          → (row.policy.revoked ≡ false) × (row.actions_used < row.policy.max_actions))
      → Move s (transaction s (take_place p a row d s)).1
  unfolding take_place
  take_place-Move a row d s f ok_to = elim (Bool-cases d.allowed) [
    | inr no_go ↦ same (ground (arith, no_go)) (ground (arith, no_go))
    | inl go ↦ elim (Bool-cases (contains (a.engagement_id, a.action_id) s.reservations)) [
      | inl old ↦ same (ground (arith, go, old)) (ground (arith, go, old))
      | inr new ↦
          let (live, room) = ok_to go in
          taken a.engagement_id a.action_id
            (record row { actions_used = row.actions_used + 1; revision = row.revision + 1 }) row f
            new live room refl (ground (arith, go, new)) (ground (arith, go, new))
    ]
  ]

  -- the decision that `reserve` and `validate_reserved` base on a row
  pub decision_facts :
      (a : Action) (now : Datetime) (row : Row) (policy : Policy) (d : AuthorizationDecision)
      → post_init p (current_policy row) ≡ ok policy
      → evaluate_action p policy (as_request a row.engagement_status) now ≡ ok d
      → d.allowed ≡ true
      → (row.policy.revoked ≡ false) × (row.actions_used < row.policy.max_actions)
  decision_facts a now row policy d built e go =
      let eq = (post_init-eq-ok p (current_policy row) policy built).0 in
      let (target, c, ok_to) =
        evaluate_action-IsPermitted p policy (as_request a row.engagement_status) now (d, e, go) in
      (ground (arith, eq, ok_to.stands.live), ground (arith, eq, ok_to.budget))

  reserve-Move : (a : Action) (now : Datetime) (s : Authority) → Move s (reserve p a now s).1
  unfolding reserve
  reserve-Move a now s = elim (Bool-cases (is_action_id a.action_id)) [
    | inr b ↦ same (ground (arith, b)) (ground (arith, b))
    | inl i ↦ elim (Option-cases (get a.engagement_id s.rows)) [
      | inl n ↦ same (ground (arith, i, n)) (ground (arith, i, n))
      | inr (row, f) ↦ elim (Result-cases (post_init p (current_policy row))) [
        | inr (e, b) ↦ same (ground (arith, i, f, b)) (ground (arith, i, f, b))
        | inl (policy, built) ↦
            elim (Result-cases
              (evaluate_action p policy (as_request a row.engagement_status) now)) [
                | inr (e, b) ↦
                    same (ground (arith, i, f, built, b)) (ground (arith, i, f, built, b))
                | inl (d, e) ↦
                    subst (Move s) (ground (arith, i, f, built, e))
                      (take_place-Move a row d s f (decision_facts a now row policy d built e))
              ]
      ]
    ]
  ]

insert_rows-Moves :
    (policies : List Policy) (statuses : Dict String String) (s t : Authority) (u : Unit {0})
    → insert_rows policies statuses s ≡ ok (u, t)
    → Moves s t
unfolding insert_rows
insert_rows-Moves [] statuses s t u h = subst (Moves s) (ground (arith, h)) here
insert_rows-Moves (policy ∷ rest) statuses s t u h =
    elim (Option-cases (get policy.engagement_id statuses)) [
      | inl n ↦ absurd (ground (arith, n, h))
      | inr (status, f) ↦ elim (Result-cases (insert_row policy status s)) [
        | inr (e, b) ↦ absurd (ground (arith, f, b, h))
        | inl ((v, mid), b) ↦
            next (insert_row-Move policy status s mid v b)
              (insert_rows-Moves rest statuses mid t u (ground (arith, f, b, h)))
      ]
    ]

append-Move : {s t u : Authority} → Moves s t → Move t u → Moves s u
append-Move here m = one m
append-Move (next k ms) m = next k (append-Move ms m)

import_legacy-Moves :
    (policies : List Policy) (statuses : Dict String String) (hash time : String) (s : Authority)
    → Moves s (import_legacy policies statuses hash time s).1
unfolding import_legacy
import_legacy-Moves policies statuses hash time s =
    elim (Result-cases (check_import policies statuses)) [
      | inr (e, b) ↦ subst (Moves s) (ground (arith, b)) here
      | inl (v, good) ↦ elim (Result-cases (insert_rows policies statuses s)) [
        | inr (e, b) ↦ subst (Moves s) (ground (arith, good, b)) here
        | inl ((u, t), b) ↦
            append-Move (insert_rows-Moves policies statuses s t u b)
              (same (ground (arith, good, b)) (ground (arith, good, b)))
      ]
    ]

-- Every call is a chain of moves; each writes one row, and takes at most one place in a budget.
pub step-Moves : (p : Platform) (s : Authority) (c : Call) → Moves s (step p s c)
unfolding step
step-Moves p s (registers policy status) = one (register-Move policy status s)
step-Moves p s (sets_status id status) = one (set_status-Move id status s)
step-Moves p s (revokes id) = one (revoke-Move id s)
step-Moves p s (reserves a now) = one (reserve-Move p a now s)
step-Moves p s (imports policies statuses hash time) =
    import_legacy-Moves policies statuses hash time s
