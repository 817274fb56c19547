-- ===== src/Authority.antt =====
-- packages/red-engine/nightrecon_red_engine/transactional_policy_authority.py: the tables of the
-- SQLite file, and each method's statements in one transaction, which an exception rolls back.
-- A policy that goes through JSON and back is built anew from the same fields.
pub mod Moves
pub mod Accounting
pub mod Leases
use night_recon.Prelude.{
  Bool, Dict, List, Result, String, [], all, bool_Eq, codes, contains, get, leb, length, list_Eq,
  map, nat_Eq, none, not, ok, option_Eq, or_raise, pair_Eq, put, raise, require, some, sorted,
  str_leb, string_Eq, subset, true, unique, ℕ, ◌&&◌, ◌++◌, ◌+◌, ◌-◌, ◌==◌, ◌>>=◌, ◌>>◌, ◌∷◌,
}
use night_recon.Authorization.{address_Eq}
use night_recon.Policy.{
  ActionRequest, AuthorizationDecision, Datetime, Platform, Policy, PolicyError, ReasonCode,
  evaluate_action, evaluate_reserved_action, post_init,
}

pub record Row : Type 0 where
  pub policy : Policy
  pub engagement_status : String
  pub actions_used : ℕ
  pub revision : ℕ

pub record MigrationAudit : Type 0 where
  pub source_sha256 : String
  pub imported_count : ℕ
  pub imported_ids : List String
  pub imported_at : String

pub record Authority : Type 0 where
  pub rows : Dict String Row
  pub reservations : List (String × String)
  pub migrations : List MigrationAudit

pub record ReservedDecision : Type 0 where
  pub engagement_id : String
  pub action_id : String
  pub used : ℕ
  pub remaining : ℕ

pub data AuthorityError : Type 0 where
  invalid_status invalid_action already_registered engagement_missing : AuthorityError
  not_registered not_reserved duplicate_action duplicate_engagement statuses_differ : AuthorityError
  denied : ReasonCode → AuthorityError
  policy_error : PolicyError → AuthorityError

abbrev pub transaction :
    {A : Type 0}
    → Authority
    → Result AuthorityError (A × Authority)
    → Result AuthorityError A × Authority
transaction s (ok (a, t)) = (ok a, t)
transaction s (raise e) = (raise e, s)

abbrev pub from_policy : {A : Type 0} → Result PolicyError A → Result AuthorityError A
from_policy (ok a) = ok a
from_policy (raise e) = raise (policy_error e)

pub is_status : String → Bool
unfolding contains
is_status status = contains status ("planned" ∷ "active" ∷ "paused" ∷ "completed" ∷ "archived" ∷ [])

pub new_row : Policy → String → Row
new_row policy status = record {
  policy = policy;
  engagement_status = status;
  actions_used = policy.actions_used;
  revision = 1;
}

-- `INSERT INTO engagement_authority`, whose key is unique
pub insert_row : Policy → String → Authority → Result AuthorityError (Unit {0} × Authority)
unfolding new_row
insert_row policy status s = elim (get policy.engagement_id s.rows) [
  | some _ ↦ raise already_registered
  | none ↦ ok (tt, record s { rows = put policy.engagement_id (new_row policy status) s.rows })
]

unfoldable pub register : Policy → String → Authority → Result AuthorityError (Unit {0}) × Authority
unfolding is_status insert_row
register policy status s =
    transaction s do require (is_status status) invalid_status; insert_row policy status s

unfoldable pub set_status :
    String → String → Authority → Result AuthorityError (Unit {0}) × Authority
unfolding is_status
set_status id status s = transaction s do
  require (is_status status) invalid_status
  row ← or_raise (get id s.rows) engagement_missing
  ok (
    tt,
    record s {
      rows = put id (record row { engagement_status = status; revision = row.revision + 1 }) s.rows;
    },
  )

unfoldable pub revoke : String → Authority → Result AuthorityError (Unit {0}) × Authority
revoke id s = transaction s do
  row ← or_raise (get id s.rows) engagement_missing
  ok (
    tt,
    record s {
      rows =
          put id
            (record row {
              policy = record row.policy { revoked = true };
              revision = row.revision + 1;
            })
            s.rows;
    },
  )

-- The arguments of `reserve` and `validate_reserved` beside the time; the status is the row's.
pub record Action : Type 0 where
  pub engagement_id : String
  pub action_id : String
  pub capability : String
  pub target : String
  pub impact : String
  pub approval_present : Bool

abbrev pub as_request : Action → String → ActionRequest
as_request a status = record {
  engagement_status = some status;
  capability = a.capability;
  target = a.target;
  impact = a.impact;
  approval_present = a.approval_present;
}

abbrev pub current_policy : Row → Policy
current_policy row = record row.policy { actions_used = row.actions_used }

pub is_action_id : String → Bool
is_action_id id = not (id == "") && leb (length (codes id)) 128

module _ (p : Platform) where
  -- what stands after the decision in `reserve`
  pub take_place :
      Action
      → Row
      → AuthorizationDecision
      → Authority
      → Result AuthorityError (ReservedDecision × Authority)
  take_place a row decision s = do
    require decision.allowed (denied decision.reason_code)
    require (not (contains (a.engagement_id, a.action_id) s.reservations)) duplicate_action
    ok (
      record {
        engagement_id = a.engagement_id;
        action_id = a.action_id;
        used = row.actions_used + 1;
        remaining = row.policy.max_actions - row.actions_used - 1;
      },
      record s {
        reservations = s.reservations ++ (a.engagement_id, a.action_id) ∷ [];
        rows =
            put a.engagement_id
              (record row { actions_used = row.actions_used + 1; revision = row.revision + 1 })
              s.rows;
      },
    )

  unfoldable pub reserve :
      Action → Datetime → Authority → Result AuthorityError ReservedDecision × Authority
  unfolding take_place is_action_id
  reserve a now s = transaction s do
    require (is_action_id a.action_id) invalid_action
    row ← or_raise (get a.engagement_id s.rows) not_registered
    policy ← from_policy (post_init p (current_policy row))
    decision ← from_policy (evaluate_action p policy (as_request a row.engagement_status) now)
    take_place a row decision s

  unfoldable pub validate_reserved :
      Action → Datetime → Authority → Result AuthorityError (Unit {0})
  validate_reserved a now s = do
    row ← or_raise (get a.engagement_id s.rows) not_registered
    require (contains (a.engagement_id, a.action_id) s.reservations) not_reserved
    policy ← from_policy (post_init p (current_policy row))
    decision ←
        from_policy (evaluate_reserved_action p policy (as_request a row.engagement_status) now)
    require decision.allowed (denied decision.reason_code)

-- the loop of `import_legacy`; every identifier has a status there
pub insert_rows :
    List Policy → Dict String String → Authority → Result AuthorityError (Unit {0} × Authority)
insert_rows [] statuses s = ok (tt, s)
insert_rows (policy ∷ rest) statuses s = do
  status ← or_raise (get policy.engagement_id statuses) statuses_differ
  (u, t) ← insert_row policy status s
  insert_rows rest statuses t

-- the tests of `import_legacy` on what the document and the caller give
pub check_import : List Policy → Dict String String → Result AuthorityError (Unit {0})
unfolding is_status
check_import policies statuses = do
  let ids = map (λ (q : Policy). q.engagement_id) policies
  let named = map (λ (x : String × String). x.0) statuses
  require (unique ids) duplicate_engagement
  require (subset named ids && subset ids named) statuses_differ
  require (all (λ (x : String × String). is_status x.1) statuses) invalid_status

-- `import_legacy`, on the policies of the document, its hash and the time
unfoldable pub import_legacy :
    List Policy
    → Dict String String
    → String
    → String
    → Authority
    → Result AuthorityError ℕ × Authority
unfolding insert_rows check_import
import_legacy policies statuses source_sha256 imported_at s = transaction s do
  check_import policies statuses
  (u, t) ← insert_rows policies statuses s
  ok (
    length policies,
    record t {
      migrations =
          t.migrations
          ++ record {
            source_sha256 = source_sha256;
            imported_count = length policies;
            imported_ids = sorted str_leb (map (λ (q : Policy). q.engagement_id) policies);
            imported_at = imported_at;
          }
            ∷ [];
    },
  )

pub data Call : Type 0 where
  registers : Policy → String → Call
  sets_status : String → String → Call
  revokes : String → Call
  reserves : Action → Datetime → Call
  imports : List Policy → Dict String String → String → String → Call

unfoldable pub step : Platform → Authority → Call → Authority
step p s (registers policy status) = (register policy status s).1
step p s (sets_status id status) = (set_status id status s).1
step p s (revokes id) = (revoke id s).1
step p s (reserves a now) = (reserve p a now s).1
step p s (imports policies statuses hash time) = (import_legacy policies statuses hash time s).1

unfoldable pub run : Platform → Authority → List Call → Authority
run p s [] = s
run p s (c ∷ cs) = run p (step p s c) cs
