-- ===== src/Automation/Checks.antt =====
-- tools/task_automation/controller.py: single values, and the observations of checks.
use night_recon.Prelude.{
  Bool, List, Option, Result, String, [], all, any, bool_Eq, codes, contains, false, if◌then◌else◌,
  is_digit, is_lower, leb, length, list_Eq, ltb, matches, nat_Eq, none, not, ok, option_Eq,
  or_raise, pair_Eq, require, some, string_Eq, strip, true, unique, ℕ, ◌&&◌, ◌+◌, ◌==◌, ◌>>=◌, ◌>>◌,
  ◌||◌, ◌∷◌,
}

pub data Rejected : Type 0 where
  invalid_integer invalid_text control_character invalid_digest invalid_check_name : Rejected
  invalid_status exit_mismatch not_executed duplicate_skip inconsistent_counts : Rejected
  passing_with_failures skips_without_counts : Rejected
  policy_mismatch illegal_transition needs_admission evidence_replaced unexpected_reason : Rejected
  candidate_required binding_mismatch frozen_candidate duplicate_check stale_check : Rejected
  unexpected_skip scope_failed missing_checks unresolved counts_required : Rejected
  nothing_to_repair repair_limit unexpected_evidence : Rejected

-- `_integer` on a value that may be missing
unfoldable pub integer : Option ℕ → ℕ → ℕ → Result Rejected ℕ
integer value low high = do
  n ← or_raise value invalid_integer
  require (leb low n && leb n high) invalid_integer
  ok n

is_control : ℕ → Bool
is_control c = ltb c 32 && not (c == 10 || c == 9)

-- `_text` on a value that may be missing
unfoldable pub check_text : Option String → ℕ → Result Rejected (Unit {0})
unfolding is_control
check_text value maximum = do
  text ← or_raise value invalid_text
  let size = length (codes (strip text))
  require (ltb 0 size && leb size maximum) invalid_text
  require (not (any is_control (codes text))) control_character

is_hex : ℕ → Bool
is_hex c = is_digit c || leb b'a' c && leb c b'f'

-- `_sha`
unfoldable pub is_sha : ℕ → String → Bool
unfolding is_hex
is_sha size value = length (codes value) == size && all is_hex (codes value)

is_name_character : ℕ → Bool
is_name_character c = is_lower c || is_digit c || c == b'-'

unfoldable pub is_check_name : String → Bool
unfolding is_name_character
is_check_name = matches is_lower is_name_character 63

pub record Check : Type 0 where
  pub name : String
  pub status : String
  pub exit_code : Option ℕ
  pub candidate_digest : String
  pub tests_run : Option ℕ
  pub passed : Option ℕ
  pub failed : Option ℕ
  pub errors : Option ℕ
  pub skipped : Option ℕ
  pub skip_ids : List String

unfoldable pub is_executed : Check → Bool
is_executed check = check.status == "passed" || check.status == "failed"

unfoldable pub check_exit : Check → Result Rejected (Unit {0})
unfolding is_executed
check_exit check =
    if is_executed check
    then (do
      code ← integer check.exit_code 0 255
      require ((code == 0) == (check.status == "passed")) exit_mismatch)
    else require (check.exit_code == none) not_executed

is_given : Option ℕ → Bool
is_given none = false
is_given (some n) = true

-- a passing check has run tests, and none of them failed
passes_cleanly : Check → ℕ → ℕ → ℕ → ℕ → Bool
passes_cleanly check passed failed errors skipped =
    ltb 0 passed && failed == 0 && errors == 0 && skipped == length check.skip_ids

unfoldable pub check_counts : Check → Result Rejected (Unit {0})
unfolding is_given passes_cleanly is_executed
check_counts check =
    if any is_given
      (check.tests_run ∷ check.passed ∷ check.failed ∷ check.errors ∷ check.skipped ∷ [])
    then (do
      run ← integer check.tests_run 0 1000000
      passed ← integer check.passed 0 1000000
      failed ← integer check.failed 0 1000000
      errors ← integer check.errors 0 1000000
      skipped ← integer check.skipped 0 1000000
      require (run == passed + failed + errors + skipped) inconsistent_counts
      require (not (check.status == "passed") || passes_cleanly check passed failed errors skipped)
          passing_with_failures
      require (is_executed check) not_executed)
    else require (check.skip_ids == []) skips_without_counts

-- `Check.validate`
unfoldable pub validate : Check → Result Rejected (Unit {0})
validate check = do
  require (is_check_name check.name) invalid_check_name
  require (is_sha 64 check.candidate_digest) invalid_digest
  require (contains check.status ("passed" ∷ "failed" ∷ "blocked" ∷ "not_run" ∷ [])) invalid_status
  check_exit check
  require (leb (length check.skip_ids) 64 && unique check.skip_ids) duplicate_skip
  check_counts check
