-- ===== src/Authorization/Safety.antt =====
-- What a scope lets through: a network only with every address in it.
use native.Mathlib.Nat.{one-le-pow, div-eq_of_lt-le, mod-add-div', div-mul-le_self, lt-div-mul-add}
use night_recon.Prelude.{
  All, Bool, Bool-cases, List, String, [], ap, arith, false, inl, inr, nat_Eq, ok, option_Eq,
  pair_Eq, refl, some, string_Eq, sym, true, ℕ, ◌%◌, ◌&&◌, ◌*◌, ◌+◌, ◌/◌, ◌<◌, ◌==◌, ◌||◌, ◌∙◌, ◌∷◌,
  ◌≡◌, ◌≤◌, ◌⊎◌,
}
use night_recon.Authorization.{
  Address, Ip, Network, Target, TargetType, address_Eq, address_type, cidr, hostname, in_network,
  ipv4, ipv6, is_authorized, match_address, match_network, matches_rule, scope_from_values, size,
  subnet_of,
}
use night_recon.Authorization.Parsed.{IsParsed, ParsedAs, scope-IsParsed}

size-pos : (n : Network) → 0 < size n
size-pos n = one-le-pow n.host_bits 2 (omega arith)

-- the multiple of `t` that starts an interval of length `t` around `a`
block_start : (a g t q : ℕ) → 0 < t → g ≡ q * t → g ≤ a → a < g + t → a / t * t ≡ g
block_start a g t q h e lo hi =
    rw (div-eq_of_lt-le {k = q} t {m = a} (omega (arith, e)) (omega (arith, e))) (sym e)

aligned : (g t : ℕ) → g % t ≡ 0 → g ≡ g / t * t
aligned g t h = omega (arith, mod-add-div' g t)

pub in_network-subnet :
    (a : Address) (n m : Network)
    → m.first % size m ≡ 0
    → n.version ≡ m.version
    → in_network a n ≡ true
    → subnet_of n m ≡ true
    → in_network a m ≡ true
unfolding in_network subnet_of
in_network-subnet a n m al ver inn sub = ground (
  arith,
  block_start a.number m.first (size m) (m.first / size m) (size-pos m)
      (aligned m.first (size m) al),
  div-mul-le_self a.number (size n),
  lt-div-mul-add {a = a.number} (size-pos n),
  size-pos n,
  size-pos m,
)

module _ (ip : Ip) where
  matches_rule-address :
      (rule u : Target) (a : Address)
      → u.target_type ≡ address_type a
      → ip.address u.value ≡ some a
      → matches_rule ip rule u ≡ match_address ip rule.target_type rule.value a
  unfolding matches_rule address_type
  matches_rule-address rule u a ty e = elim (Bool-cases (a.version == 4)) [
    | inl h ↦ ground (arith, ty, e, h)
    | inr h ↦ ground (arith, ty, e, h)
  ]

  matches_rule-network :
      (rule t : Target) (n : Network)
      → t.target_type ≡ cidr
      → ip.network t.value ≡ some n
      → matches_rule ip rule t ≡ match_network ip rule.target_type rule.value n
  unfolding matches_rule
  matches_rule-network rule t n ty e = ground (arith, ty, e)

  match_network-total :
      (ty : TargetType) (v : String) (n : Network)
      → ParsedAs ip ty v
      → (b : Bool) × (match_network ip ty v n ≡ ok b)
  unfolding match_network
  match_network-total cidr v n (m, e) = (m.version == n.version && subnet_of n m, rw e)
  match_network-total _ v n p = (false, refl)

  match_address-total :
      (ty : TargetType) (v : String) (a : Address)
      → ParsedAs ip ty v
      → (b : Bool) × (match_address ip ty v a ≡ ok b)
  unfolding match_address
  match_address-total cidr v a (m, e) = (in_network a m, rw e)
  match_address-total hostname v a p = (false, refl)
  match_address-total ipv4 v a (b, e) = (a == b, rw e)
  match_address-total ipv6 v a (b, e) = (a == b, rw e)

  match_address-network :
      (ty : TargetType) (v : String) (n : Network) (a : Address)
      → in_network a n ≡ true
      → ParsedAs ip ty v
      → match_network ip ty v n ≡ ok true
      → match_address ip ty v a ≡ ok true
  unfolding match_address match_network
  match_address-network cidr v n a inn (m, e) h = rw e (
      ap ok (
        in_network-subnet a n m (ip.masked v m e) (ground (arith, e, h)) inn
          (ground (arith, e, h))))
  match_address-network hostname v n a inn p h = cc
  match_address-network ipv4 v n a inn p h = cc
  match_address-network ipv6 v n a inn p h = cc

  step_true :
      (rule u : Target) (rules : List Target) (b : Bool)
      → matches_rule ip rule u ≡ ok b
      → (b ≡ true) ⊎ (is_authorized ip rules u ≡ ok true)
      → is_authorized ip (rule ∷ rules) u ≡ ok true
  unfolding is_authorized
  step_true rule u rules true e h = rw e
  step_true rule u rules false e (inl h) = cc
  step_true rule u rules false e (inr h) = rw e h

  is_authorized-network :
      (rules : List Target) (t u : Target) (n : Network) (a : Address)
      → All (IsParsed ip) rules
      → t.target_type ≡ cidr
      → ip.network t.value ≡ some n
      → u.target_type ≡ address_type a
      → ip.address u.value ≡ some a
      → in_network a n ≡ true
      → is_authorized ip rules t ≡ ok true
      → is_authorized ip rules u ≡ ok true
  unfolding is_authorized
  is_authorized-network [] t u n a p tc tn uc ua inn h = absurd (cc)
  is_authorized-network (rule ∷ rules) t u n a (p, ps) tc tn uc ua inn h =
      let (b, hit) = match_network-total rule.target_type rule.value n p in
      let (c, hit') = match_address-total rule.target_type rule.value a p in
      step_true rule u rules c (matches_rule-address rule u a uc ua ∙ hit') (elim (Bool-cases b) [
        | inl y ↦ inl (
            ground
              (arith, hit, hit', y, match_address-network rule.target_type rule.value n a inn p))
        | inr y ↦ inr (
            is_authorized-network rules t u n a ps tc tn uc ua inn
              (ground (arith, h, hit, y, matches_rule-network rule t n tc tn)))
      ])

  is_authorized-total_address :
      (rules : List Target) (u : Target) (a : Address)
      → All (IsParsed ip) rules
      → u.target_type ≡ address_type a
      → ip.address u.value ≡ some a
      → (b : Bool) × (is_authorized ip rules u ≡ ok b)
  unfolding is_authorized
  is_authorized-total_address [] u a p uc ua = (false, refl)
  is_authorized-total_address (rule ∷ rules) u a (p, ps) uc ua =
      let (c, hit) = match_address-total rule.target_type rule.value a p in
      let (b, rest) = is_authorized-total_address rules u a ps uc ua in
      (c || b, ground (arith, hit, rest, matches_rule-address rule u a uc ua))

  -- A scope whose rules were read from texts and that authorizes a network authorizes every
  -- address in that network.
  pub scope_covers_network :
      (values : List String) (rules : List Target) (t u : Target) (n : Network) (a : Address)
      → scope_from_values ip values ≡ ok rules
      → t.target_type ≡ cidr
      → ip.network t.value ≡ some n
      → u.target_type ≡ address_type a
      → ip.address u.value ≡ some a
      → in_network a n ≡ true
      → is_authorized ip rules t ≡ ok true
      → is_authorized ip rules u ≡ ok true
  scope_covers_network values rules t u n a h =
      is_authorized-network rules t u n a (scope-IsParsed ip values rules h)
