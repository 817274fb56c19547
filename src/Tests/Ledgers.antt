-- ===== src/Tests/Ledgers.antt =====
-- atomic_action_ledger.py on a concrete ledger.
use night_recon.Prelude.{
  List, [], bool_Eq, contains, false, get, list_Eq, nat_Eq, ok, option_Eq, pair_Eq, put, refl,
  select, some, string_Eq, true, unique, ◌↔◌, ◌∷◌, ◌≡◌, ◌≤◌,
}
use night_recon.Ledger.{
  Ledger, LedgerCall, Reservation, Reserving, empty, provision, provisions, reserve, reserves,
  revoke, run, step,
}
use night_recon.Ledger.Budget.{IsRevoked, reserved_for, reserved_for-run-le, run-IsRevoked}
use night_recon.Ledger.Reservations.{CanReserve, reserve_iff}

abbrev first_scan : Reserving
first_scan = record {
  engagement_id = "eng-1";
  action_id = "scan-1";
  policy_limit = some 5;
  policy_used = 0;
  policy_is_revoked = false;
}

abbrev calls : List LedgerCall
calls =
    reserves first_scan
    ∷ reserves first_scan
    ∷ provisions "eng-1" 9 false
    ∷ reserves (record first_scan { action_id = "scan-2" })
    ∷ []

abbrev opened : Ledger
opened = (provision "eng-1" 1 false empty).1

abbrev closed : Ledger
closed = revoke "eng-1" opened

ledger_code : Unit {0}
unfolding run step provision reserve revoke empty get put contains unique select
ledger_code = tt

one_taken : (run opened calls).reservations ≡ ("eng-1", "scan-1") ∷ []
unfolding ledger_code
one_taken = refl

reserved_for-run-le_example : reserved_for "eng-1" (run opened calls).reservations ≤ 1
unfolding ledger_code reserved_for
reserved_for-run-le_example = reserved_for-run-le "eng-1" 1 false empty calls refl refl refl

closed-IsRevoked : IsRevoked "eng-1" closed
unfolding ledger_code IsRevoked
closed-IsRevoked = (record { action_limit = 1; used = 0; revoked = true }, refl, refl)

run-IsRevoked_example :
    IsRevoked "eng-1" (run closed calls)
    × (reserved_for "eng-1" (run closed calls).reservations
        ≡ reserved_for "eng-1" closed.reservations)
run-IsRevoked_example = run-IsRevoked "eng-1" closed calls closed-IsRevoked

reserve_iff_example :
    ((x : Reservation) × ((reserve first_scan opened).0 ≡ ok x) × (x.used ≤ x.limit))
    ↔ CanReserve first_scan opened
reserve_iff_example = reserve_iff first_scan opened
