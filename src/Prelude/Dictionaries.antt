-- ===== src/Prelude/Dictionaries.antt =====
-- Python's `dict`: pairs in the order in which their keys came.
use mathlib.Core.Path.{◌≡◌, ◌∙◌, ap, refl, sym, subst}
use mathlib.Core.Bool.{true, false}
use mathlib.Core.Logic.{inl, inr}
use mathlib.Core.Option.{Option, none, some}
use mathlib.Core.List.{List, [], ◌∷◌, ◌++◌, map}
use native.Mathlib.Omega.{arith}
use night_recon.Prelude.Tests.{if◌then◌else◌, Bool-cases}
use night_recon.Prelude.Lists.{All, contains, unique, unique-snoc}
use night_recon.Prelude.Equality.{Eq, ◌==◌, eq_refl, eq_of_beq}

abbrev pub Dict {ℓ κ} : Type ℓ → Type κ → Type (ℓ ⊔ κ)
Dict K V = List (K × V)

module _ {ℓ κ} {K : Type ℓ} {V : Type κ} ⦃e : Eq K⦄ where
  -- `d.get(k)`
  unfoldable pub get : K → Dict K V → Option V
  get k [] = none
  get k ((j, v) ∷ d) = if j == k then some v else get k d

  -- `d[k] = v`
  unfoldable pub put : K → V → Dict K V → Dict K V
  put k v [] = (k, v) ∷ []
  put k v ((j, w) ∷ d) = if j == k then (j, v) ∷ d else (j, w) ∷ put k v d

  -- `del d[k]`, of a key that is there
  unfoldable pub delete : K → Dict K V → Dict K V
  delete k [] = []
  delete k ((j, w) ∷ d) = if j == k then d else (j, w) ∷ delete k d

  pub get-put :
      (k j : K) (v : V) (d : Dict K V) → get j (put k v d) ≡ (if k == j then some v else get j d)
  unfolding get put
  get-put k j v [] = refl
  get-put k j v ((i, w) ∷ d) =
      ground (arith, e.equal_iff k j, e.equal_iff i k, e.equal_iff i j, get-put k j v d)

  pub get-put_self : (k : K) (v : V) (d : Dict K V) → get k (put k v d) ≡ some v
  get-put_self k v d = ground (arith, get-put k k v d, eq_refl k)

  -- Writing back what was there changes nothing.
  pub put-get_self : (k : K) (v w : V) (d : Dict K V) → get k d ≡ some v → put k v (put k w d) ≡ d
  unfolding get put
  put-get_self k v w [] h = absurd (cc)
  put-get_self k v w ((i, u) ∷ d) h = ground (arith, e.equal_iff i k, put-get_self k v w d)

  pub put-same : (k : K) (v : V) (d : Dict K V) → get k d ≡ some v → put k v d ≡ d
  unfolding get put
  put-same k v [] h = absurd (cc)
  put-same k v ((i, u) ∷ d) h = ground (arith, e.equal_iff i k, put-same k v d)

  -- A key that was not there is gone again after it is deleted.
  pub delete-put : (k : K) (v : V) (d : Dict K V) → get k d ≡ none → delete k (put k v d) ≡ d
  unfolding get put delete
  delete-put k v [] h = ground (arith, eq_refl k)
  delete-put k v ((i, u) ∷ d) h = ground (arith, delete-put k v d)

  -- A property of every pair: kept by a write that has it, and used by a read.
  pub All-put {μ} :
      (P : K × V → Type μ) (k : K) (v : V) (d : Dict K V) → All P d → P (k, v) → All P (put k v d)
  unfolding put
  All-put P k v [] h n = (n, tt)
  All-put P k v ((i, u) ∷ d) h n = elim (Bool-cases (i == k)) [
    | inl t ↦ rw t (subst (λ j. P (j, v)) (sym (eq_of_beq i k t)) n, h.1)
    | inr f ↦ rw f (h.0, All-put P k v d h.1 n)
  ]

  pub All-get {μ} :
      (P : K × V → Type μ) (k : K) (v : V) (d : Dict K V) → All P d → get k d ≡ some v → P (k, v)
  unfolding get
  All-get P k v [] h g = absurd (cc)
  All-get P k v ((i, u) ∷ d) h g = elim (Bool-cases (i == k)) [
    | inl t ↦ subst P (pair_path (eq_of_beq i k t) (ground (arith, t, g))) h.0
    | inr f ↦ All-get P k v d h.1 (rw f at g)
  ]
    where
      pair_path : {i j : K} {a b : V} → i ≡ j → a ≡ b → ◌≡◌ {A = K × V} (i, a) (j, b)
      pair_path p q = λ x. (p x, q x)

  abbrev pub keys_of : Dict K V → List K
  keys_of d = map (λ (x : K × V). x.0) d

  pub get-not_key : (k : K) (d : Dict K V) → contains k (keys_of d) ≡ false → get k d ≡ none
  unfolding contains get
  get-not_key k [] h = refl
  get-not_key k ((i, u) ∷ d) h = ground (arith, h, get-not_key k d)

  keys_of-put_old :
      (k : K) (v : V) (d : Dict K V)
      → contains k (keys_of d) ≡ true
      → keys_of (put k v d) ≡ keys_of d
  unfolding contains put
  keys_of-put_old k v [] h = absurd (ground (arith, h))
  keys_of-put_old k v ((i, u) ∷ d) h = ground (arith, h, keys_of-put_old k v d)

  keys_of-put_new :
      (k : K) (v : V) (d : Dict K V)
      → contains k (keys_of d) ≡ false
      → keys_of (put k v d) ≡ keys_of d ++ k ∷ []
  unfolding contains put
  keys_of-put_new k v [] h = refl
  keys_of-put_new k v ((i, u) ∷ d) h = ground (arith, h, keys_of-put_new k v d)

  pub unique-put :
      (k : K) (v : V) (d : Dict K V)
      → unique (keys_of d) ≡ true
      → unique (keys_of (put k v d)) ≡ true
  unique-put k v d h = elim (Bool-cases (contains k (keys_of d))) [
    | inl b ↦ ap unique (keys_of-put_old k v d b) ∙ h
    | inr b ↦ ap unique (keys_of-put_new k v d b) ∙ unique-snoc k (keys_of d) h b
  ]
