-- ===== src/Authority/Accounting.antt =====
-- transactional_policy_authority.py: the use of a budget against the reservations, over a history.
use night_recon.Prelude.{
  Bool-cases, List, String, [], ap, arith, bool_Eq, eq_of_beq, false, get, get-put, inl, inr,
  list_Eq, nat_Eq, option_Eq, pair_Eq, refl, some, string_Eq, true, unique, unique-snoc, ℕ, ◌+◌,
  ◌<◌, ◌==◌, ◌∙◌, ◌∷◌, ◌≡◌, ◌≤◌,
}
use night_recon.Policy.{Platform}
use night_recon.Ledger.Budget.{reserved_for, reserved_for-snoc}
use night_recon.Authority.{Authority, Call, Row, run, step}
use night_recon.Authority.Moves.{Move, Moves, added, edited, here, next, same, step-Moves, taken}

-- How an engagement stands in `t`, from its row `base` at a time when it had `n` reservations.
pub record Account (id : String) (base : Row) (n : ℕ) (t : Authority) : Type 0 where
  pub row : Row
  pub found : get id t.rows ≡ some row
  pub budget : row.policy.max_actions ≡ base.policy.max_actions
  pub balance : row.actions_used + n ≡ base.actions_used + reserved_for id t.reservations
  pub bounded :
      base.actions_used ≤ base.policy.max_actions → row.actions_used ≤ row.policy.max_actions
  pub revoked :
      base.policy.revoked ≡ true
      → (row.policy.revoked ≡ true) × (reserved_for id t.reservations ≡ n)

Account-start :
    (id : String) (row : Row) (s : Authority)
    → get id s.rows ≡ some row
    → Account id row (reserved_for id s.reservations) s
Account-start id row s f = record {
  row = row;
  found = f;
  budget = refl;
  balance = refl;
  bounded = λ h. h;
  revoked = λ h. (h, refl);
}

module _ {s t : Authority} (id : String) (base : Row) (n : ℕ) (w : Account id base n s) where
  Account-untouched :
      get id t.rows ≡ get id s.rows
      → reserved_for id t.reservations ≡ reserved_for id s.reservations
      → Account id base n t
  Account-untouched e r = record {
    row = w.row;
    found = e ∙ w.found;
    budget = w.budget;
    balance = omega (arith, r, w.balance);
    bounded = w.bounded;
    revoked = λ h. ((w.revoked h).0, r ∙ (w.revoked h).1);
  }

  Account-edited :
      (row : Row)
      → get id t.rows ≡ some row
      → row.actions_used ≡ w.row.actions_used
      → row.policy.max_actions ≡ w.row.policy.max_actions
      → (w.row.policy.revoked ≡ true → row.policy.revoked ≡ true)
      → reserved_for id t.reservations ≡ reserved_for id s.reservations
      → Account id base n t
  Account-edited row f u m r c = record {
    row = row;
    found = f;
    budget = m ∙ w.budget;
    balance = omega (arith, u, c, w.balance);
    bounded = λ h. omega (arith, u, m, w.bounded h);
    revoked = λ h. (r (w.revoked h).0, c ∙ (w.revoked h).1);
  }

  Account-taken :
      (row : Row)
      → get id t.rows ≡ some row
      → row.actions_used ≡ w.row.actions_used + 1
      → row.policy ≡ w.row.policy
      → w.row.policy.revoked ≡ false
      → w.row.actions_used < w.row.policy.max_actions
      → reserved_for id t.reservations ≡ reserved_for id s.reservations + 1
      → Account id base n t
  Account-taken row f u m live room c = record {
    row = row;
    found = f;
    budget = ground (arith, m, w.budget);
    balance = omega (arith, u, c, w.balance);
    bounded = λ h. ground (arith, u, m, room);
    revoked = λ h. absurd (ground (arith, (w.revoked h).0, live));
  }

Move-Account :
    {s t : Authority} (id : String) (base : Row) (n : ℕ)
    → Move s t
    → Account id base n s
    → Account id base n t
Move-Account id base n (same e r) w =
    Account-untouched id base n w (ap (get id) e) (ap (reserved_for id) r)
Move-Account {s} id base n (added i row f e r) w = elim (Bool-cases (i == id)) [
  | inl hit ↦ absurd (ground (arith, eq_of_beq i id hit, f, w.found))
  | inr miss ↦
      Account-untouched id base n w (ground (arith, e, miss, get-put i id row s.rows))
        (ap (reserved_for id) r)
]
Move-Account {s} id base n (edited i row old f u m live e r) w = elim (Bool-cases (i == id)) [
  | inl hit ↦
      let eq : old ≡ w.row = ground (arith, eq_of_beq i id hit, f, w.found) in
      Account-edited id base n w row (ground (arith, e, hit, get-put i id row s.rows))
        (ground (arith, u, eq)) (ground (arith, m, eq)) (λ h. live (ground (arith, eq, h)))
        (ap (reserved_for id) r)
  | inr miss ↦
      Account-untouched id base n w (ground (arith, e, miss, get-put i id row s.rows))
        (ap (reserved_for id) r)
]
Move-Account {s} id base n (taken i a row old f new live room eq e r) w =
    let more = ap (reserved_for id) r ∙ reserved_for-snoc id i a s.reservations in
    elim (Bool-cases (i == id)) [
      | inl hit ↦
          let o : old ≡ w.row = ground (arith, eq_of_beq i id hit, f, w.found) in
          Account-taken id base n w row (ground (arith, e, hit, get-put i id row s.rows))
            (ground (arith, eq, o)) (ground (arith, eq, o)) (ground (arith, live, o))
            (ground (arith, room, o)) (ground (arith, more, hit))
      | inr miss ↦
          Account-untouched id base n w (ground (arith, e, miss, get-put i id row s.rows))
            (ground (arith, more, miss))
    ]

Moves-Account :
    {s t : Authority} (id : String) (base : Row) (n : ℕ)
    → Moves s t
    → Account id base n s
    → Account id base n t
Moves-Account id base n here w = w
Moves-Account id base n (next m ms) w = Moves-Account id base n ms (Move-Account id base n m w)

run-Account-from :
    (p : Platform) (id : String) (base : Row) (n : ℕ) (s : Authority) (cs : List Call)
    → Account id base n s
    → Account id base n (run p s cs)
unfolding run
run-Account-from p id base n s [] w = w
run-Account-from p id base n s (c ∷ cs) w =
    run-Account-from p id base n (step p s c) cs (Moves-Account id base n (step-Moves p s c) w)

-- From any state and over any history of calls, a registered engagement keeps its budget, uses one
-- action for each reservation that it gains and none otherwise, stays within the budget if it was
-- within, and once revoked stays revoked and gains no reservation.
pub run-Account :
    (p : Platform) (id : String) (row : Row) (s : Authority) (cs : List Call)
    → get id s.rows ≡ some row
    → Account id row (reserved_for id s.reservations) (run p s cs)
run-Account p id row s cs f =
    run-Account-from p id row (reserved_for id s.reservations) s cs (Account-start id row s f)

Move-unique :
    {s t : Authority} → Move s t → unique s.reservations ≡ true → unique t.reservations ≡ true
Move-unique (same e r) u = rw r u
Move-unique (added i row f e r) u = rw r u
Move-unique (edited i row old f x m live e r) u = rw r u
Move-unique {s} (taken i a row old f new live room eq e r) u =
    rw r (unique-snoc (i, a) s.reservations u new)

Moves-unique :
    {s t : Authority} → Moves s t → unique s.reservations ≡ true → unique t.reservations ≡ true
Moves-unique here u = u
Moves-unique (next m ms) u = Moves-unique ms (Move-unique m u)

-- No history of calls reserves an action of an engagement twice.
pub run-unique_actions :
    (p : Platform) (s : Authority) (cs : List Call)
    → unique s.reservations ≡ true
    → unique (run p s cs).reservations ≡ true
unfolding run
run-unique_actions p s [] u = u
run-unique_actions p s (c ∷ cs) u =
    run-unique_actions p (step p s c) cs (Moves-unique (step-Moves p s c) u)
