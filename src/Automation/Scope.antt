-- ===== src/Automation/Scope.antt =====
-- tools/task_automation/controller.py: what a candidate without violations leaves alone.
use mathlib.Core.Path.{subst}
use night_recon.Prelude.{
  Bool-cases, List, Option, Option-cases, Result-cases, String, [], arith, bool_Eq, contains,
  contains-append, contains-sorted, eq_of_beq, false, get, inl, inr, list_Eq, nat_Eq, not, ok,
  option_Eq, pair_Eq, refl, select, some, str_leb, string_Eq, sym, true, ◌++◌, ◌==◌, ◌||◌, ◌∙◌, ◌∷◌,
  ◌≡◌,
}
use night_recon.Automation.Runs.{Candidate, TaskPolicy, scope_valid}
use night_recon.Automation.Paths.{covered}
use night_recon.Automation.Candidates.{
  Digests, FileEntry, Files, Task, all_paths, compare_paths, entry_Eq, flag, inspect_candidate,
  mode_allowed, operation_of, path_violations, paths_of, same_mode, snapshot, total_violations,
}

append-nil-inv : {A : Type 0} (xs ys : List A) → xs ++ ys ≡ [] → (xs ≡ []) × (ys ≡ [])
append-nil-inv [] ys h = (refl, h)
append-nil-inv (x ∷ xs) ys h = cc

-- What a change of one path is allowed to be.
pub record IsAllowed (task : Task) (policy : TaskPolicy) (path : String)
    (old new : Option FileEntry) : Type 0 where
  pub operation : contains (operation_of old new) task.permitted_operations ≡ true
  pub in_policy : covered policy.permitted_paths path ≡ true
  pub in_task : covered task.permitted_paths path ≡ true
  pub unprotected : covered policy.protected_paths path ≡ false
  pub old_mode : mode_allowed policy.allowed_modes old ≡ true
  pub new_mode : mode_allowed policy.allowed_modes new ≡ true
  pub mode_kept : same_mode old new ≡ true

path_violations-IsAllowed :
    (task : Task) (policy : TaskPolicy) (path : String) (old new : Option FileEntry)
    → path_violations task policy path old new ≡ []
    → IsAllowed task policy path old new
unfolding path_violations flag
path_violations-IsAllowed task policy path old new h = record {
  operation = ground arith;
  in_policy = ground arith;
  in_task = ground arith;
  unprotected = ground arith;
  old_mode = ground arith;
  new_mode = ground arith;
  mode_kept = ground arith;
}

compare_paths-IsAllowed :
    (task : Task) (policy : TaskPolicy) (base candidate : Files) (paths : List String)
    (path : String)
    → (compare_paths task policy base candidate paths).violations ≡ []
    → contains path paths ≡ true
    → (get path base == get path candidate) ≡ false
    → IsAllowed task policy path (get path base) (get path candidate)
unfolding compare_paths contains
compare_paths-IsAllowed task policy base candidate [] path h c d = cc
compare_paths-IsAllowed task policy base candidate (p ∷ ps) path h c d =
    let later = compare_paths-IsAllowed task policy base candidate ps path in
    elim (Bool-cases (get p base == get p candidate)) [
      | inl same ↦ elim (Bool-cases (p == path)) [
        | inl hit ↦ absurd (ground (arith, eq_of_beq p path hit, same, d))
        | inr miss ↦ later (ground (arith, same, h)) (ground (arith, miss, c)) d
      ]
      | inr differ ↦
          let (mine, others) =
            append-nil-inv (path_violations task policy p (get p base) (get p candidate))
              (compare_paths task policy base candidate ps).violations
              (ground (arith, differ, h)) in
          elim (Bool-cases (p == path)) [
            | inl hit ↦
                subst (λ (q : String). IsAllowed task policy q (get q base) (get q candidate))
                  (eq_of_beq p path hit)
                  (path_violations-IsAllowed task policy p (get p base) (get p candidate) mine)
            | inr miss ↦ later others (ground (arith, miss, c)) d
          ]
    ]

contains-paths_of :
    (path : String) (files : Files) (e : FileEntry)
    → get path files ≡ some e
    → contains path (paths_of files) ≡ true
unfolding get paths_of contains
contains-paths_of path [] e h = cc
contains-paths_of path ((p, x) ∷ rest) e h = ground (arith, contains-paths_of path rest e)

contains-select-not :
    (path : String) (xs ys : List String)
    → contains path ys ≡ true
    → (contains path xs || contains path (select (λ q. not (contains q xs)) ys)) ≡ true
unfolding contains select
contains-select-not path xs [] h = cc
contains-select-not path xs (y ∷ ys) h = elim (Bool-cases (y == path)) [
  | inl hit ↦ ground (arith, hit, eq_of_beq y path hit)
  | inr miss ↦ ground (arith, miss, h, contains-select-not path xs ys)
]

contains-all_paths :
    (path : String) (base candidate : Files)
    → (get path base == get path candidate) ≡ false
    → contains path (all_paths base candidate) ≡ true
unfolding all_paths
contains-all_paths path base candidate d =
    contains-sorted str_leb path
      (paths_of base ++ select (λ q. not (contains q (paths_of base))) (paths_of candidate))
    ∙ contains-append path (paths_of base)
        (select (λ q. not (contains q (paths_of base))) (paths_of candidate))
    ∙ elim (Option-cases (get path base)) [
      | inr (e, f) ↦ ground (arith, contains-paths_of path base e f)
      | inl n ↦ elim (Option-cases (get path candidate)) [
        | inr (e, f) ↦
            contains-select-not path (paths_of base) (paths_of candidate)
              (contains-paths_of path candidate e f)
        | inl m ↦ absurd (ground (arith, n, m, d))
      ]
    ]

-- A candidate that `inspect_candidate` finds free of violations differs from the base only in paths
-- that the policy and the task permit and that are not protected, by permitted operations, with
-- allowed modes that stay as they are.
pub inspect_candidate-IsAllowed :
    (digests : Digests) (task : Task) (policy : TaskPolicy) (base candidate : Files)
    (found : Candidate) (path : String)
    → inspect_candidate digests task policy base candidate ≡ ok found
    → scope_valid found ≡ true
    → (get path base == get path candidate) ≡ false
    → IsAllowed task policy path (get path base) (get path candidate)
unfolding inspect_candidate
inspect_candidate-IsAllowed digests task policy base candidate found path h v d =
    elim (Result-cases (snapshot digests base)) [
      | inr (x, b) ↦ absurd (ground (arith, b, h))
      | inl (before, b) ↦ elim (Result-cases (snapshot digests candidate)) [
        | inr (x, a) ↦ absurd (ground (arith, b, a, h))
        | inl (after, a) ↦
            let listed = all_paths base candidate in
            let compared = compare_paths task policy base candidate listed in
            let violations : found.violations
                ≡ compared.violations ++ total_violations policy compared =
              ground (arith, b, a, h) in
            compare_paths-IsAllowed task policy base candidate listed path
              (append-nil-inv compared.violations (total_violations policy compared)
                (sym violations ∙ eq_of_beq found.violations [] v)).0
              (contains-all_paths path base candidate d) d
      ]
    ]
