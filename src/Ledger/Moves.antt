-- ===== src/Ledger/Moves.antt =====
-- What one call can do to the tables of atomic_action_ledger.py.
use mathlib.Core.Path.{subst}
use night_recon.Prelude.{
  Bool, Bool-cases, Option, Option-cases, Result-cases, String, [], arith, bool_Eq, contains, false,
  get, inl, inr, leb, list_Eq, ltb, nat_Eq, none, not, option_Eq, pair_Eq, put, refl, some,
  string_Eq, sym, true, ℕ, ◌&&◌, ◌++◌, ◌+◌, ◌<◌, ◌==◌, ◌∙◌, ◌∷◌, ◌≡◌, ◌≤◌,
}
use night_recon.Ledger.{
  Ledger, LedgerCall, Limit, Reserving, check_identity, provision, provisions, reserve, reserve_row,
  reserves, revoke, revokes, step, tighten, transaction, upsert_limit,
}

pub data Move (l m : Ledger) : Type 0 where
  same : m ≡ l → Move l m
  -- the limit falls or stays, the revocation and the use stay
  limited :
      (id : String) (row : Limit)
      → m ≡ record l { limits = put id row l.limits }
      → ((old : Limit)
          → get id l.limits ≡ some old
          → (row.action_limit ≤ old.action_limit)
            × (old.used ≤ row.used)
            × (old.revoked ≡ true → row.revoked ≡ true))
      → Move l m
  taken :
      (id action : String) (row old : Limit)
      → get id l.limits ≡ some old
      → old.revoked ≡ false
      → row.revoked ≡ false
      → row.action_limit ≤ old.action_limit
      → old.used < row.used
      → row.used ≤ row.action_limit
      → contains (id, action) l.reservations ≡ false
      → m ≡ record {
        limits = put id row l.limits;
        reservations = l.reservations ++ (id, action) ∷ [];
      }
      → Move l m

provision-Move : (id : String) (n : ℕ) (b : Bool) (l : Ledger) → Move l (provision id n b l).1
unfolding provision
provision-Move id n b l = elim (Bool-cases (not (id == "") && leb 1 n)) [
  | inr bad ↦ same (ground (arith, bad))
  | inl good ↦
      limited id (upsert_limit n b (get id l.limits)) (ground (arith, good))
        λ old h. rw h (omega arith, omega arith, λ r. ground (arith, r))
]

revoke-Move : (id : String) (l : Ledger) → Move l (revoke id l)
unfolding revoke
revoke-Move id l = elim (Option-cases (get id l.limits)) [
  | inl h ↦ same (ground (arith, h))
  | inr (row, h) ↦
      limited id (record row { revoked = true }) (ground (arith, h))
        λ old h'. (ground (arith, h, h'), ground (arith, h, h'), λ r. refl)
]

pub tighten-le :
    (n : Option ℕ) (u : ℕ) (row : Limit)
    → ((tighten n u row).action_limit ≤ row.action_limit)
      × (row.used ≤ (tighten n u row).used)
      × ((tighten n u row).revoked ≡ row.revoked)
unfolding tighten
tighten-le none u row = (omega arith, omega arith, refl)
tighten-le (some n) u row = (omega arith, omega arith, refl)

reserve_row-Move :
    (id action : String) (row old : Limit) (l : Ledger)
    → get id l.limits ≡ some old
    → row.action_limit ≤ old.action_limit
    → old.used ≤ row.used
    → row.revoked ≡ old.revoked
    → Move l (transaction l (reserve_row id action row l)).1
unfolding reserve_row
reserve_row-Move id action row old l found lim uses rev = elim (Bool-cases row.revoked) [
  | inl a ↦ same (ground (arith, a))
  | inr a ↦ elim (Bool-cases (contains (id, action) l.reservations)) [
    | inl b ↦ same (ground (arith, a, b))
    | inr b ↦ elim (Bool-cases (ltb row.used row.action_limit)) [
      | inr c ↦ same (ground (arith, a, b, c))
      | inl c ↦
          taken id action (record row { used = row.used + 1 }) old found (sym rev ∙ a) a lim
            (omega (arith, uses)) (ground (arith, c)) b (ground (arith, a, b, c))
    ]
  ]
]

reserve-Move : (r : Reserving) (l : Ledger) → Move l (reserve r l).1
unfolding reserve
reserve-Move r l = elim (Result-cases (check_identity r)) [
  | inr (e, bad) ↦ same (rw (bad, reserve) refl)
  | inl (u, good) ↦ elim (Option-cases (get r.engagement_id l.limits)) [
    | inl none_there ↦ same (ground (arith, good, none_there))
    | inr (old, found) ↦
        let (lim, uses, rev) = tighten-le r.policy_limit r.policy_used old in
        subst (Move l) (ground (arith, good, found)) (
          reserve_row-Move r.engagement_id r.action_id (tighten r.policy_limit r.policy_used old)
            old l found lim uses rev)
  ]
]

-- One call leaves the tables alone, lowers a limit, or takes one place under the limit.
pub step-Move : (l : Ledger) (c : LedgerCall) → Move l (step l c)
unfolding step
step-Move l (provisions id n b) = provision-Move id n b l
step-Move l (revokes id) = revoke-Move id l
step-Move l (reserves r) = reserve-Move r l
