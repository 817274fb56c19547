-- ===== src/Authorization.antt =====
-- packages/shared-core/nightrecon_shared_core/authorization.py: targets and scopes.
-- The text parsers of the module `ipaddress` are the parameter `Ip`; what the program does with
-- the parsed numbers is written out.
mod Networks
pub mod Parsed
pub mod Safety
pub use Networks.{Address, address_Eq, Network, Ip, size}
unfoldable pub use Networks.{address_eq, in_network, subnet_of}
use night_recon.Prelude.{
  Bool, List, Result, String, [], codes, contains, false, if◌then◌else◌, is_alnum, leb, length,
  lower, ltb, nat_Eq, none, not, ok, option_Eq, or_raise, pair_Eq, raise, some, string_Eq, strip,
  true, ℕ, ◌&&◌, ◌+◌, ◌==◌, ◌>>=◌, ◌>>◌, ◌||◌, ◌∷◌,
}

pub data TargetType : Type 0 where
  ipv4 ipv6 cidr hostname : TargetType

pub record Target : Type 0 where
  pub value : String
  pub target_type : TargetType

pub data TargetError : Type 0 where
  empty_target invalid_cidr invalid_target empty_scope : TargetError

-- `_HOSTNAME_PATTERN`: labels of 1 to 63 characters between dots, none with a dash at an end.
-- `n` characters of the label are read, the last of them a dash if `dash`.
labels : ℕ → Bool → List ℕ → Bool
labels n dash [] = ltb 0 n && leb n 63 && not dash
labels n dash (c ∷ cs) =
    (if c == b'.' then ltb 0 n && leb n 63 && not dash else is_alnum c || c == b'-' && not (n == 0))
    && labels (if c == b'.' then 0 else n + 1) (c == b'-') cs

is_hostname : String → Bool
unfolding labels
is_hostname s = leb (length (codes s)) 253 && labels 0 false (codes s)

has_slash : String → Bool
unfolding contains
has_slash s = contains b'/' (codes s)

unfoldable pub address_type : Address → TargetType
address_type a = if a.version == 4 then ipv4 else ipv6

module _ (ip : Ip) where
  parse_cidr : String → Result TargetError Target
  parse_cidr v = elim (ip.network v) [
    | none ↦ raise invalid_cidr
    | some _ ↦ ok (record { value = v; target_type = cidr })
  ]

  parse_host : String → Result TargetError Target
  unfolding is_hostname address_type
  parse_host v = elim (ip.address v) [
    | some a ↦ ok (record { value = v; target_type = address_type a })
    | none ↦
        if is_hostname v
        then ok (record { value = lower v; target_type = hostname })
        else raise invalid_target
  ]

  unfoldable pub parse_target : String → Result TargetError Target
  unfolding parse_cidr parse_host has_slash
  parse_target value =
      let v = strip value in
      if v == "" then raise empty_target else if has_slash v then parse_cidr v else parse_host v

  parse_rules : List String → Result TargetError (List Target)
  parse_rules [] = ok []
  parse_rules (v ∷ vs) = do rule ← parse_target v; rules ← parse_rules vs; ok (rule ∷ rules)

  -- `Scope.from_values`
  unfoldable pub scope_from_values : List String → Result TargetError (List Target)
  unfolding parse_rules
  scope_from_values [] = raise empty_scope
  scope_from_values (v ∷ vs) = parse_rules (v ∷ vs)

  -- `Scope._matches` on an address target; `ip_address` raises on a text that is no address
  match_address : TargetType → String → Address → Result TargetError Bool
  match_address hostname rule a = ok false
  match_address cidr rule a = do n ← or_raise (ip.network rule) invalid_cidr; ok (in_network a n)
  match_address _ rule a = do b ← or_raise (ip.address rule) invalid_target; ok (a == b)

  match_network : TargetType → String → Network → Result TargetError Bool
  match_network cidr rule t = do
    n ← or_raise (ip.network rule) invalid_cidr
    ok (n.version == t.version && subnet_of t n)
  match_network _ rule t = ok false

  is_hostname_type : TargetType → Bool
  is_hostname_type hostname = true
  is_hostname_type _ = false

  matches_by_type : TargetType → Target → String → Result TargetError Bool
  unfolding match_address match_network is_hostname_type
  matches_by_type hostname rule value =
      ok (is_hostname_type rule.target_type && rule.value == value)
  matches_by_type cidr rule value = do
    t ← or_raise (ip.network value) invalid_cidr
    match_network rule.target_type rule.value t
  matches_by_type _ rule value = do
    a ← or_raise (ip.address value) invalid_target
    match_address rule.target_type rule.value a

  -- `Scope._matches`
  unfoldable pub matches_rule : Target → Target → Result TargetError Bool
  unfolding matches_by_type
  matches_rule rule target = matches_by_type target.target_type rule target.value

  -- `Scope.is_authorized`: the first rule that matches or raises ends the search
  unfoldable pub is_authorized : List Target → Target → Result TargetError Bool
  is_authorized [] target = ok false
  is_authorized (rule ∷ rules) target = do
    let rest = is_authorized rules target
    hit ← matches_rule rule target
    if hit then ok true else rest
