-- ===== src/Automation/Paths.antt =====
-- tools/task_automation/controller.py: repository paths, as lists of character codes. `casefold` is
-- that of ASCII, which is exact for the paths that `path_name` accepts.
use night_recon.Prelude.{
  Bool, List, String, [], all, any, bool_Eq, codes, contains, false, if◌then◌else◌, is_alnum, leb,
  length, list_Eq, map, nat_Eq, not, option_Eq, pair_Eq, string_Eq, true, ℕ, ◌&&◌, ◌+◌, ◌==◌, ◌||◌,
  ◌∷◌,
}

fold_code : ℕ → ℕ
fold_code c = if leb b'A' c && leb c b'Z' then c + 32 else c

-- `casefold`
unfoldable pub casefold : String → List ℕ
unfolding fold_code
casefold s = map fold_code (codes s)

-- `split` at a character
unfoldable pub split : ℕ → List ℕ → List (List ℕ)
split sep [] = [] ∷ []
split sep (c ∷ cs) =
    let rest = split sep cs in
    if c == sep then [] ∷ rest else elim rest [ [] ↦ (c ∷ []) ∷ [] | p ∷ ps ↦ (c ∷ p) ∷ ps ]

unfoldable pub starts_with : List ℕ → List ℕ → Bool
starts_with [] s = true
starts_with (p ∷ ps) [] = false
starts_with (p ∷ ps) (c ∷ cs) = p == c && starts_with ps cs

unfoldable pub ends_with : ℕ → List ℕ → Bool
ends_with c [] = false
ends_with c (x ∷ []) = x == c
ends_with c (x ∷ y ∷ ys) = ends_with c (y ∷ ys)

-- `path[:-1]`
but_last : List ℕ → List ℕ
but_last [] = []
but_last (x ∷ []) = []
but_last (x ∷ y ∷ ys) = x ∷ but_last (y ∷ ys)

is_path_character : ℕ → Bool
is_path_character c = is_alnum c || c == b'_' || c == b'.' || c == b'-'

before : ℕ → List ℕ → List ℕ
before sep [] = []
before sep (c ∷ cs) = let rest = before sep cs in if c == sep then [] else c ∷ rest

-- the names that Windows reserves
reserved : List (List ℕ)
reserved = map codes (
    "con" ∷ "prn" ∷ "aux" ∷ "nul" ∷ "com1" ∷ "com2" ∷ "com3" ∷ "com4" ∷ "com5" ∷ "com6" ∷ "com7"
    ∷ "com8" ∷ "com9" ∷ "lpt1" ∷ "lpt2" ∷ "lpt3" ∷ "lpt4" ∷ "lpt5" ∷ "lpt6" ∷ "lpt7" ∷ "lpt8"
    ∷ "lpt9" ∷ [])

is_part : List ℕ → Bool
unfolding is_path_character before reserved fold_code
is_part part =
    not (part == [])
    && all is_path_character part
    && not (part == codes "." || part == codes "..")
    && not (ends_with b'.' part)
    && not (map fold_code part == codes ".git")
    && not (contains (map fold_code (before b'.' part)) reserved)

-- `path_name`, with and without `prefix`
unfoldable pub is_path_name : Bool → String → Bool
unfolding is_part but_last
is_path_name prefix value =
    let cs = codes value in
    let path = if prefix && ends_with b'/' cs then but_last cs else cs in
    not (value == "") && leb (length cs) 512 && all is_part (split b'/' path)

-- `_covers`
unfoldable pub covers : String → String → Bool
covers scope path =
    let s = casefold scope in
    let p = casefold path in if ends_with b'/' s then starts_with s p else p == s

-- `_overlaps`
unfoldable pub overlaps : String → String → Bool
overlaps left right = covers left right || covers right left

unfoldable pub covered : List String → String → Bool
covered scopes path = any (λ scope. covers scope path) scopes
