-- ===== src/Ledger/Budget.antt =====
-- atomic_action_ledger.py: what a history of calls can never exceed or undo.
use night_recon.Prelude.{
  Bool, Bool-cases, List, String, [], arith, bool_Eq, eq_of_beq, get, get-put, get-put_self,
  if◌then◌else◌, inl, inr, leb, length, list_Eq, nat_Eq, none, not, ok, option_Eq, pair_Eq, refl,
  select, some, string_Eq, true, ℕ, ◌&&◌, ◌++◌, ◌+◌, ◌==◌, ◌∙◌, ◌∷◌, ◌≡◌, ◌≤◌,
}
use night_recon.Ledger.{Ledger, LedgerCall, Limit, provision, run, step}
use night_recon.Ledger.Moves.{Move, limited, same, step-Move, taken}

-- the reservations of one engagement
unfoldable pub is_for : String → String × String → Bool
is_for id r = r.0 == id

unfoldable pub reserved_for : String → List (String × String) → ℕ
unfolding is_for select
reserved_for id rs = length (select (is_for id) rs)

-- A row whose limit is at most `top`, which counts at least the engagement's reservations, and of
-- these no more than `top`.
pub record Within (id : String) (top : ℕ) (l : Ledger) : Type 0 where
  pub row : Limit
  pub found : get id l.limits ≡ some row
  pub capped : row.action_limit ≤ top
  pub counted : reserved_for id l.reservations ≤ row.used
  pub bounded : reserved_for id l.reservations ≤ top

pub reserved_for-snoc :
    (id e a : String) (rs : List (String × String))
    → reserved_for id (rs ++ (e, a) ∷ [])
      ≡ (if e == id then reserved_for id rs + 1 else reserved_for id rs)
unfolding reserved_for
reserved_for-snoc id e a [] = ground arith
reserved_for-snoc id e a (r ∷ rs) = ground (arith, reserved_for-snoc id e a rs)

Move-Within : {l m : Ledger} (id : String) (top : ℕ) → Move l m → Within id top l → Within id top m
Move-Within id top (same e) w = rw e w
Move-Within {l} id top (limited i row e keeps) w = elim (Bool-cases (i == id)) [
  | inl hit ↦
      let (lim, uses, rev) = keeps w.row (ground (arith, eq_of_beq i id hit, w.found)) in
      record {
        row = row;
        found = ground (arith, e, hit, get-put i id row l.limits);
        capped = omega (arith, lim, w.capped);
        counted = ground (arith, e, uses, w.counted);
        bounded = ground (arith, e, w.bounded);
      }
  | inr miss ↦ record {
    row = w.row;
    found = ground (arith, e, miss, get-put i id row l.limits, w.found);
    capped = w.capped;
    counted = ground (arith, e, w.counted);
    bounded = ground (arith, e, w.bounded);
  }
]
Move-Within {l} id top (taken i a row old f live live' lim uses cap new e) w =
    let more = reserved_for-snoc id i a l.reservations in
    elim (Bool-cases (i == id)) [
      | inl hit ↦
          let eq : old ≡ w.row = ground (arith, eq_of_beq i id hit, w.found, f) in
          record {
            row = row;
            found = ground (arith, e, hit, get-put i id row l.limits);
            capped = ground (arith, eq, lim, w.capped);
            counted = ground (arith, e, eq, hit, more, uses, w.counted);
            bounded = ground (arith, e, eq, hit, more, uses, cap, lim, w.capped, w.counted);
          }
      | inr miss ↦ record {
        row = w.row;
        found = ground (arith, e, miss, get-put i id row l.limits, w.found);
        capped = w.capped;
        counted = ground (arith, e, miss, more, w.counted);
        bounded = ground (arith, e, miss, more, w.bounded);
      }
    ]

run-Within :
    (id : String) (top : ℕ) (l : Ledger) (cs : List LedgerCall)
    → Within id top l
    → Within id top (run l cs)
unfolding run
run-Within id top l [] w = w
run-Within id top l (c ∷ cs) w =
    run-Within id top (step l c) cs (Move-Within id top (step-Move l c) w)

provision-Within :
    (id : String) (n : ℕ) (b : Bool) (l : Ledger)
    → (provision id n b l).0 ≡ ok tt
    → get id l.limits ≡ none
    → reserved_for id l.reservations ≡ 0
    → Within id n (provision id n b l).1
unfolding provision
provision-Within id n b l h g z = elim (Bool-cases (not (id == "") && leb 1 n)) [
  | inr bad ↦ absurd (ground (arith, bad, h))
  | inl good ↦
      let new : Limit = record { action_limit = n; used = 0; revoked = b } in
      record {
        row = new;
        found = ground (arith, good, g, get-put_self id new l.limits);
        capped = omega arith;
        counted = ground (arith, good, z);
        bounded = ground (arith, good, z);
      }
]

-- An engagement that is provisioned with a limit for the first time never gets more reservations
-- than that, whatever calls follow, repeated provisioning included.
pub reserved_for-run-le :
    (id : String) (n : ℕ) (b : Bool) (l : Ledger) (cs : List LedgerCall)
    → (provision id n b l).0 ≡ ok tt
    → get id l.limits ≡ none
    → reserved_for id l.reservations ≡ 0
    → reserved_for id (run (provision id n b l).1 cs).reservations ≤ n
reserved_for-run-le id n b l cs h g z =
    (run-Within id n (provision id n b l).1 cs (provision-Within id n b l h g z)).bounded

-- Once revoked, an engagement stays so, and takes no more reservations.
unfoldable pub IsRevoked : String → Ledger → Type 0
IsRevoked id l = (row : Limit) × (get id l.limits ≡ some row) × (row.revoked ≡ true)

Move-IsRevoked :
    {l m : Ledger} (id : String)
    → Move l m
    → IsRevoked id l
    → IsRevoked id m × (reserved_for id m.reservations ≡ reserved_for id l.reservations)
unfolding IsRevoked
Move-IsRevoked id (same e) w = rw e (w, refl)
Move-IsRevoked {l} id (limited i row e keeps) (old, found, rev) = elim (Bool-cases (i == id)) [
  | inl hit ↦
      let (lim, uses, rev') = keeps old (ground (arith, eq_of_beq i id hit, found)) in
      ((row, ground (arith, e, hit, get-put i id row l.limits), rev' rev), ground (arith, e))
  | inr miss ↦
      ((old, ground (arith, e, miss, found, get-put i id row l.limits), rev), ground (arith, e))
]
Move-IsRevoked {l} id (taken i a row old f live live' lim uses cap new e) (row', found, rev) =
    let more = reserved_for-snoc id i a l.reservations in
    elim (Bool-cases (i == id)) [
      | inl hit ↦
          let eq : old ≡ row' = ground (arith, eq_of_beq i id hit, found, f) in
          absurd (ground (arith, eq, rev, live))
      | inr miss ↦ (
        (row', ground (arith, e, miss, found, get-put i id row l.limits), rev),
        ground (arith, e, miss, more),
      )
    ]

-- After a revocation no history of calls restores the engagement or reserves an action for it.
pub run-IsRevoked :
    (id : String) (l : Ledger) (cs : List LedgerCall)
    → IsRevoked id l
    → IsRevoked id (run l cs)
      × (reserved_for id (run l cs).reservations ≡ reserved_for id l.reservations)
unfolding run
run-IsRevoked id l [] r = (r, refl)
run-IsRevoked id l (c ∷ cs) r =
    let (r', e) = Move-IsRevoked id (step-Move l c) r in
    let (r'', e') = run-IsRevoked id (step l c) cs r' in (r'', e' ∙ e)
