-- ===== src/Ledger.antt =====
-- packages/red-engine/nightrecon_red_engine/atomic_action_ledger.py: the two tables of the SQLite
-- file, and the statements of each method in one transaction, which an exception rolls back.
mod Moves
pub mod Budget
pub mod Reservations
use night_recon.Prelude.{
  Bool, Dict, List, Option, Result, String, [], bool_Eq, codes, contains, get, leb, length, list_Eq,
  ltb, max, min, nat_Eq, none, not, ok, option_Eq, or_raise, pair_Eq, put, raise, require, some,
  string_Eq, true, ℕ, ◌&&◌, ◌++◌, ◌+◌, ◌==◌, ◌>>=◌, ◌>>◌, ◌||◌, ◌∷◌,
}

-- A row of `action_limits`.
pub record Limit : Type 0 where
  pub action_limit : ℕ
  pub used : ℕ
  pub revoked : Bool

pub record Ledger : Type 0 where
  pub limits : Dict String Limit
  pub reservations : List (String × String)

pub record Reservation : Type 0 where
  pub engagement_id : String
  pub action_id : String
  pub used : ℕ
  pub limit : ℕ

pub data LedgerError : Type 0 where
  invalid_configuration invalid_identity invalid_policy_limit : LedgerError
  policy_revoked unavailable_or_revoked already_reserved budget_exhausted : LedgerError

-- `with connection`: commit what the block did, or roll it back and pass the exception on.
abbrev transaction :
    {A : Type 0} → Ledger → Result LedgerError (A × Ledger) → Result LedgerError A × Ledger
transaction l (ok (a, m)) = (ok a, m)
transaction l (raise e) = (raise e, l)

-- `INSERT … ON CONFLICT DO UPDATE` of `provision`
upsert_limit : ℕ → Bool → Option Limit → Limit
upsert_limit limit revoked none = record { action_limit = limit; used = 0; revoked = revoked }
upsert_limit limit revoked (some row) = record row {
  action_limit = min row.action_limit limit;
  revoked = row.revoked || revoked;
}

unfoldable pub provision : String → ℕ → Bool → Ledger → Result LedgerError (Unit {0}) × Ledger
unfolding upsert_limit
provision engagement_id limit revoked l = transaction l do
  require (not (engagement_id == "") && leb 1 limit) invalid_configuration
  ok (
    tt,
    record l {
      limits = put engagement_id (upsert_limit limit revoked (get engagement_id l.limits)) l.limits;
    },
  )

-- `UPDATE … WHERE engagement_id=?` changes the row if there is one.
update_limit : String → (Limit → Limit) → Dict String Limit → Dict String Limit
update_limit id f rows = elim (get id rows) [ none ↦ rows | some row ↦ put id (f row) rows ]

unfoldable pub revoke : String → Ledger → Ledger
unfolding update_limit
revoke engagement_id l = record l {
  limits = update_limit engagement_id (λ row. record row { revoked = true }) l.limits;
}

-- the first `UPDATE` of `reserve`
pub tighten : Option ℕ → ℕ → Limit → Limit
tighten none policy_used row = row
tighten (some policy_limit) policy_used row = record row {
  action_limit = min row.action_limit policy_limit;
  used = max row.used policy_used;
}

limit_is_valid : Option ℕ → Bool
limit_is_valid none = true
limit_is_valid (some n) = leb 1 n

-- the rest of `reserve`, on the row as tightened
reserve_row : String → String → Limit → Ledger → Result LedgerError (Reservation × Ledger)
reserve_row engagement_id action_id row l = do
  require (not row.revoked) unavailable_or_revoked
  require (not (contains (engagement_id, action_id) l.reservations)) already_reserved
  require (ltb row.used row.action_limit) budget_exhausted
  ok (
    record {
      engagement_id = engagement_id;
      action_id = action_id;
      used = row.used + 1;
      limit = row.action_limit;
    },
    record {
      limits = put engagement_id (record row { used = row.used + 1 }) l.limits;
      reservations = l.reservations ++ (engagement_id, action_id) ∷ [];
    },
  )

pub record Reserving : Type 0 where
  pub engagement_id : String
  pub action_id : String
  pub policy_limit : Option ℕ
  pub policy_used : ℕ
  pub policy_is_revoked : Bool

pub check_identity : Reserving → Result LedgerError (Unit {0})
check_identity r = do
  require
      (not (r.engagement_id == "")
        && not (r.action_id == "")
        && leb (length (codes r.action_id)) 128)
      invalid_identity
  require (limit_is_valid r.policy_limit) invalid_policy_limit
  require (not r.policy_is_revoked) policy_revoked

unfoldable pub reserve : Reserving → Ledger → Result LedgerError Reservation × Ledger
unfolding check_identity limit_is_valid tighten reserve_row
reserve r l = transaction l do
  check_identity r
  row ← or_raise (get r.engagement_id l.limits) unavailable_or_revoked
  reserve_row r.engagement_id r.action_id (tighten r.policy_limit r.policy_used row) l

pub data LedgerCall : Type 0 where
  provisions : String → ℕ → Bool → LedgerCall
  revokes : String → LedgerCall
  reserves : Reserving → LedgerCall

unfoldable pub empty : Ledger
empty = record { limits = []; reservations = [] }

unfoldable pub step : Ledger → LedgerCall → Ledger
step l (provisions id limit revoked) = (provision id limit revoked l).1
step l (revokes id) = revoke id l
step l (reserves r) = (reserve r l).1

unfoldable pub run : Ledger → List LedgerCall → Ledger
run l [] = l
run l (c ∷ cs) = run (step l c) cs
