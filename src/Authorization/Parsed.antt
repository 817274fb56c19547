-- ===== src/Authorization/Parsed.antt =====
-- The targets that the parsers of authorization.py make hold texts that their types can read.
use mathlib.Core.Path.{subst}
use night_recon.Prelude.{
  >>=-eq-ok, All, Bool-cases, List, Option-cases, String, [], arith, inl, inr, lower, nat_Eq, ok,
  option_Eq, pair_Eq, some, string_Eq, strip, ◌==◌, ◌∷◌, ◌≡◌,
}
use night_recon.Authorization.{
  Address, Ip, Network, Target, TargetType, address_Eq, address_type, cidr, has_slash, hostname,
  parse_cidr, parse_host, parse_rules, parse_target, scope_from_values,
}

module _ (ip : Ip) where
  -- The text of a target is one that the parser of its type accepts.
  abbrev pub ParsedAs : TargetType → String → Type 0
  ParsedAs cidr v = (n : Network) × (ip.network v ≡ some n)
  ParsedAs hostname v = Unit
  ParsedAs _ v = (a : Address) × (ip.address v ≡ some a)

  abbrev pub IsParsed : Target → Type 0
  IsParsed t = ParsedAs t.target_type t.value

  cidr_target : String → Target
  cidr_target v = record { value = v; target_type = cidr }

  parse_cidr-IsParsed : (v : String) (t : Target) → parse_cidr ip v ≡ ok t → IsParsed t
  unfolding parse_cidr cidr_target
  parse_cidr-IsParsed v t h = elim (Option-cases (ip.network v)) [
    | inl e ↦ absurd (ground (arith, e, h))
    | inr (n, e) ↦ subst IsParsed {x = cidr_target v} (ground (arith, e, h)) (n, e)
  ]

  ParsedAs-address :
      (v : String) (a : Address) → ip.address v ≡ some a → ParsedAs (address_type a) v
  unfolding address_type
  ParsedAs-address v a e = elim (Bool-cases (a.version == 4)) [
    | inl h ↦ rw h (a, e)
    | inr h ↦ rw h (a, e)
  ]

  parse_host-IsParsed : (v : String) (t : Target) → parse_host ip v ≡ ok t → IsParsed t
  unfolding parse_host
  parse_host-IsParsed v t h = elim (Option-cases (ip.address v)) [
    | inl e ↦
        subst IsParsed {x = record { value = lower v; target_type = hostname }}
          (ground (arith, e, h)) tt
    | inr (a, e) ↦
        subst IsParsed {x = record { value = v; target_type = address_type a }}
          (ground (arith, e, h)) (ParsedAs-address v a e)
  ]

  pub parse_target-IsParsed : (v : String) (t : Target) → parse_target ip v ≡ ok t → IsParsed t
  unfolding parse_target
  parse_target-IsParsed v t h = elim (Bool-cases (strip v == "")) [
    | inl e ↦ absurd (ground (arith, e, h))
    | inr e ↦ elim (Bool-cases (has_slash (strip v))) [
      | inl s ↦ parse_cidr-IsParsed (strip v) t (ground (arith, e, s, h))
      | inr s ↦ parse_host-IsParsed (strip v) t (ground (arith, e, s, h))
    ]
  ]

  parse_rules-IsParsed :
      (vs : List String) (rules : List Target) → parse_rules ip vs ≡ ok rules → All IsParsed rules
  unfolding parse_rules
  parse_rules-IsParsed [] [] h = tt
  parse_rules-IsParsed [] (r ∷ rs) h = absurd (cc)
  parse_rules-IsParsed (v ∷ vs) rules h =
      let (rule, e, h') = >>=-eq-ok (parse_target ip v) _ h in
      let (rest, e', h'') = >>=-eq-ok (parse_rules ip vs) _ h' in
      subst (All IsParsed) {x = rule ∷ rest} (ground (arith, h''))
        (parse_target-IsParsed v rule e, parse_rules-IsParsed vs rest e')

  pub scope-IsParsed :
      (values : List String) (rules : List Target)
      → scope_from_values ip values ≡ ok rules
      → All IsParsed rules
  unfolding scope_from_values
  scope-IsParsed [] rules h = absurd (cc)
  scope-IsParsed (v ∷ vs) rules h = parse_rules-IsParsed (v ∷ vs) rules h
