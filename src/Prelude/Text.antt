-- ===== src/Prelude/Text.antt =====
-- Python's `str` methods, on the native strings.
use Prim.Native.Char.{Char, char, code, IsScalar}
use Prim.Native.Nat.{ℕ, suc, ◌+◌, ◌<◌, Ordering}
use Prim.Native.String.{String}
use Prim.Native.String
use Prim.Native.String.compare
use mathlib.Core.Path.{◌≡◌, refl}
use mathlib.Core.Bool.{Bool, true, false, not, ◌&&◌, ◌||◌}
use mathlib.Core.Logic.{dite}
use mathlib.Core.List.{List, [], ◌∷◌}
use native.Mathlib.Omega.{arith}
use native.Mathlib.Decide.{dec_lt}
use night_recon.Prelude.Tests.{leb, nat_eq, if◌then◌else◌}
use night_recon.Prelude.Equality.{◌==◌, string_Eq}

-- `str.isspace` of one character
unfoldable pub is_space : ℕ → Bool
is_space c =
    leb 9 c && leb c 13
    || leb 28 c && leb c 32
    || nat_eq c 133
    || nat_eq c 160
    || nat_eq c 5760
    || leb 8192 c && leb c 8202
    || nat_eq c 8232
    || nat_eq c 8233
    || nat_eq c 8239
    || nat_eq c 8287
    || nat_eq c 12288

lstrip : String → String
unfolding is_space
lstrip String.[] = ""
lstrip (String.◌∷◌ c s) = let rest = lstrip s in if is_space (code c) then rest else String.◌∷◌ c s

rstrip : String → String
unfolding is_space
rstrip String.[] = ""
rstrip (String.◌∷◌ c s) =
    let rest = rstrip s in if is_space (code c) && rest == "" then "" else String.◌∷◌ c rest

-- `value.strip()`
unfoldable pub strip : String → String
unfolding lstrip rstrip
strip s = rstrip (lstrip s)

IsScalar-small : (n : ℕ) → n < 1000 → IsScalar n
IsScalar-small n h = ground arith

lower_code : (n : ℕ) → IsScalar n → Char
unfolding IsScalar-small dec_lt
lower_code n s =
    dite (dec_lt n 91)
      (λ h. if leb 65 n then char (n + 32) (IsScalar-small (n + 32) (omega arith)) else char n s)
      (λ _. char n s)

lower_char : Char → Char
unfolding lower_code
lower_char (char n s) = lower_code n s

-- `value.lower()` of an ASCII text
unfoldable pub lower : String → String
unfolding lower_char
lower String.[] = ""
lower (String.◌∷◌ c s) = String.◌∷◌ (lower_char c) (lower s)

-- the order of Python's strings: code point by code point
abbrev pub str_leb : String → String → Bool
str_leb a b = elim (String.compare a b) [ Ordering.gt ↦ false | _ ↦ true ]

abbrev pub codes : String → List ℕ
codes String.[] = []
codes (String.◌∷◌ c s) = code c ∷ codes s

-- `re.fullmatch("[a-z][…]{0,63}", s)` and such: a first character and bounded others
every : (ℕ → Bool) → List ℕ → Bool
every p [] = true
every p (c ∷ cs) = p c && every p cs

bounded : ℕ → List ℕ → Bool
bounded n [] = true
bounded ℕ.zero (c ∷ cs) = false
bounded (suc n) (c ∷ cs) = bounded n cs

headed : (ℕ → Bool) → (ℕ → Bool) → ℕ → List ℕ → Bool
headed first other n [] = false
headed first other n (c ∷ cs) = first c && every other cs && bounded n cs

-- the whole text is one character of `first` and at most `n` of `other`
unfoldable pub matches : (ℕ → Bool) → (ℕ → Bool) → ℕ → String → Bool
unfolding every bounded headed
matches first other n s = headed first other n (codes s)

abbrev pub is_lower : ℕ → Bool
is_lower c = leb b'a' c && leb c b'z'

abbrev pub is_digit : ℕ → Bool
is_digit c = leb b'0' c && leb c b'9'

abbrev pub is_alnum : ℕ → Bool
is_alnum c = is_lower c || leb b'A' c && leb c b'Z' || is_digit c

-- a nonblank text that `strip` leaves alone
unfoldable pub trimmed : String → Bool
unfolding strip
trimmed s = not (s == "") && s == strip s

is_prefix : List ℕ → List ℕ → Bool
is_prefix [] cs = true
is_prefix (a ∷ part) [] = false
is_prefix (a ∷ part) (c ∷ cs) = nat_eq a c && is_prefix part cs

is_infix : List ℕ → List ℕ → Bool
is_infix part [] = is_prefix part []
is_infix part (c ∷ cs) = is_prefix part (c ∷ cs) || is_infix part cs

-- `part in s`
unfoldable pub has_part : String → String → Bool
unfolding is_prefix is_infix
has_part part s = is_infix (codes part) (codes s)

-- Of two texts, one comes first.
pub str_leb_total : (a b : String) → str_leb a b ≡ false → str_leb b a ≡ true
str_leb_total String.[] String.[] h = refl
str_leb_total String.[] (String.◌∷◌ d t) h = ground (arith, h, compare.nil-cons d t)
str_leb_total (String.◌∷◌ c s) String.[] h = ground (arith, compare.nil-cons c s)
str_leb_total (String.◌∷◌ c s) (String.◌∷◌ d t) h =
    ground (arith, str_leb_total s t, compare.cons-cons c d s t, compare.cons-cons d c t s)

strip_test : strip "  a b\t" ≡ "a b"
unfolding strip is_space
strip_test = refl

lower_test : lower "Ab-9Z" ≡ "ab-9z"
unfolding lower
lower_test = refl

trimmed_test : trimmed "ops lead" ≡ true
unfolding trimmed
trimmed_test = refl
