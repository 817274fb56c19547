-- ===== src/Automation/Candidates.antt =====
-- tools/task_automation/controller.py: `_snapshot` and `inspect_candidate`, on the inventories of
-- files before and after. The digests are parameters.
use Prim.Native.String.{◌++◌ as append}
use night_recon.Prelude.{
  Bool, Dict, Eq, List, Option, Result, String, [], all, any, arith, bool_Eq, contains, false, get,
  if◌then◌else◌, leb, length, list_Eq, list_eq_iff, ltb, map, nat_Eq, none, not, ok, option_Eq,
  pair_Eq, require, select, some, sorted, str_leb, string_Eq, true, unique, ℕ, ◌&&◌, ◌++◌, ◌+◌,
  ◌==◌, ◌>>=◌, ◌>>◌, ◌↔◌, ◌∷◌, ◌≡◌,
}
use night_recon.Automation.Runs.{Candidate, FileChange, TaskPolicy}
use night_recon.Automation.Paths.{casefold, covered, is_path_name}

pub record FileEntry : Type 0 where
  pub mode : String
  pub content : List ℕ

abbrev pub entry_eq : FileEntry → FileEntry → Bool
entry_eq e f = e.mode == f.mode && e.content == f.content

pub entry_eq_iff : (e f : FileEntry) → (entry_eq e f ≡ true) ↔ (e ≡ f)
entry_eq_iff e f =
    ground (arith, string_Eq.equal_iff e.mode f.mode, list_eq_iff e.content f.content)

instance abbrev pub entry_Eq : Eq FileEntry
entry_Eq = record { equal = entry_eq; equal_iff = entry_eq_iff }

abbrev pub Files : Type 0
Files = Dict String FileEntry

-- `task_id` and `branch` are computed from the other fields by the code.
pub record Task : Type 0 where
  pub task_id : String
  pub branch : String
  pub base_sha : String
  pub permitted_paths : List String
  pub permitted_operations : List String
  pub policy_digest : String

-- a path with the mode and the digest of its file
pub record Listed : Type 0 where
  pub path : String
  pub mode : String
  pub digest : String

-- SHA-256 of the bytes of a file, and of the canonical JSON of a candidate's binding
pub record Digests : Type 0 where
  pub of_content : List ℕ → String
  pub of_binding : String → String → String → List Listed → List Listed → String

unfoldable pub paths_of : Files → List String
paths_of files = map (λ (x : String × FileEntry). x.0) files

total_size : List (String × FileEntry) → ℕ
total_size [] = 0
total_size ((path, entry) ∷ rest) = length entry.content + total_size rest

-- every beginning of a path that ends before a separator
ancestors : List ℕ → List ℕ → List (List ℕ)
ancestors seen [] = []
ancestors seen (c ∷ cs) =
    let rest = ancestors (seen ++ c ∷ []) cs in if c == b'/' then seen ∷ rest else rest

has_ancestor : List (List ℕ) → List ℕ → Bool
unfolding ancestors
has_ancestor seen path = any (λ a. contains a seen) (ancestors [] path)

file_modes : List String
file_modes = "100644" ∷ "100755" ∷ "120000" ∷ "160000" ∷ []

by_path : String × FileEntry → String × FileEntry → Bool
by_path x y = str_leb x.0 y.0

pub data SnapshotError : Type 0 where
  entry_limit bad_path colliding_paths bad_mode byte_limit ancestor_in_snapshot : SnapshotError
  candidate_policy_mismatch : SnapshotError

unfoldable pub snapshot : Digests → Files → Result SnapshotError (List Listed)
unfolding total_size has_ancestor file_modes by_path
snapshot digests files = do
  let folded = map casefold (paths_of files)
  require (leb (length files) 20000) entry_limit
  require (all (is_path_name false) (paths_of files)) bad_path
  require (unique folded) colliding_paths
  require (all (λ (x : String × FileEntry). contains x.1.mode file_modes) files) bad_mode
  require (leb (total_size files) 67108864) byte_limit
  require (not (any (has_ancestor folded) folded)) ancestor_in_snapshot
  ok (
      map
        (λ (x : String × FileEntry). record {
          path = x.0;
          mode = x.1.mode;
          digest = digests.of_content x.1.content;
        })
        (sorted by_path files))

unfoldable pub flag : Bool → String → String → List String
flag bad label path = if bad then append label path ∷ [] else []

unfoldable pub operation_of : Option FileEntry → Option FileEntry → String
operation_of none new = "add"
operation_of (some old) none = "delete"
operation_of (some old) (some new) = "modify"

mode_of : Option FileEntry → Option String
mode_of none = none
mode_of (some entry) = some entry.mode

unfoldable pub mode_allowed : List String → Option FileEntry → Bool
mode_allowed modes none = true
mode_allowed modes (some entry) = contains entry.mode modes

unfoldable pub same_mode : Option FileEntry → Option FileEntry → Bool
same_mode (some old) (some new) = old.mode == new.mode
same_mode old new = true

size_of : Option FileEntry → ℕ
size_of none = 0
size_of (some entry) = length entry.content

-- the violations of one changed path
unfoldable pub path_violations :
    Task → TaskPolicy → String → Option FileEntry → Option FileEntry → List String
unfolding flag
path_violations task policy path old new =
    flag (not (contains (operation_of old new) task.permitted_operations))
      "operation_not_permitted:" path
    ++ flag (not (covered policy.permitted_paths path)) "outside_policy:" path
    ++ flag (not (covered task.permitted_paths path)) "outside_task:" path
    ++ flag (covered policy.protected_paths path) "protected_path:" path
    ++ flag (not (mode_allowed policy.allowed_modes old && mode_allowed policy.allowed_modes new))
        "unsafe_mode:" path
    ++ flag (not (same_mode old new)) "mode_change:" path

-- the variables of the loop
pub record Comparison : Type 0 where
  pub changes : List FileChange
  pub violations : List String
  pub changed_bytes : ℕ

unfoldable pub compare_paths : Task → TaskPolicy → Files → Files → List String → Comparison
unfolding mode_of size_of
compare_paths task policy base candidate [] = record {
  changes = [];
  violations = [];
  changed_bytes = 0;
}
compare_paths task policy base candidate (path ∷ paths) =
    let rest = compare_paths task policy base candidate paths in
    let old = get path base in
    let new = get path candidate in
    if old == new then rest else record {
      changes =
          record {
            path = path;
            operation = operation_of old new;
            old_mode = mode_of old;
            new_mode = mode_of new;
          }
          ∷ rest.changes;
      violations = path_violations task policy path old new ++ rest.violations;
      changed_bytes = size_of old + size_of new + rest.changed_bytes;
    }

-- `sorted(base.keys() | candidate.keys())`
unfoldable pub all_paths : Files → Files → List String
all_paths base candidate =
    sorted str_leb
      (paths_of base ++ select (λ path. not (contains path (paths_of base))) (paths_of candidate))

-- the tests on the whole candidate
unfoldable pub total_violations : TaskPolicy → Comparison → List String
total_violations policy comparison =
    (if length comparison.changes == 0 then "empty_candidate" ∷ [] else [])
    ++ (if ltb policy.max_changed_files (length comparison.changes)
        then "changed_file_limit" ∷ []
        else [])
    ++ (if ltb policy.max_changed_bytes comparison.changed_bytes
        then "changed_byte_limit" ∷ []
        else [])

unfoldable pub inspect_candidate :
    Digests → Task → TaskPolicy → Files → Files → Result SnapshotError Candidate
inspect_candidate digests task policy base candidate = do
  require (task.policy_digest == policy.digest) candidate_policy_mismatch
  before ← snapshot digests base
  after ← snapshot digests candidate
  let found = compare_paths task policy base candidate (all_paths base candidate)
  ok (record {
    task_id = task.task_id;
    branch = task.branch;
    base_sha = task.base_sha;
    policy_digest = policy.digest;
    digest = digests.of_binding task.task_id task.base_sha policy.digest before after;
    changes = found.changes;
    violations = found.violations ++ total_violations policy found;
  })
