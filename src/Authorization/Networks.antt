-- ===== src/Authorization/Networks.antt =====
-- What authorization.py asks of the standard library's module `ipaddress`.
use night_recon.Prelude.{
  Bool, Eq, Option, String, arith, bool_Eq, leb, list_Eq, nat_Eq, option_Eq, option_eq,
  option_eq_iff, pair_Eq, some, string_Eq, true, ℕ, ◌%◌, ◌&&◌, ◌*◌, ◌+◌, ◌-◌, ◌/◌, ◌==◌, ◌^◌, ◌↔◌,
  ◌≡◌,
}

-- An address is a version, 4 or 6, the number that its bits are, and the zone of an IPv6 address that
-- has one, which counts where addresses are compared and not where a network is asked for one.
pub record Address : Type 0 where
  pub version : ℕ
  pub number : ℕ
  pub scope_id : Option String

unfoldable pub address_eq : Address → Address → Bool
address_eq a b = a.version == b.version && a.number == b.number && option_eq a.scope_id b.scope_id

pub address_eq_iff : (a b : Address) → (address_eq a b ≡ true) ↔ (a ≡ b)
unfolding address_eq
address_eq_iff a b = ground (arith, option_eq_iff a.scope_id b.scope_id)

instance abbrev pub address_Eq : Eq Address
address_Eq = record { equal = address_eq; equal_iff = address_eq_iff }

-- A network is its first address and the number of bits that are free in it.
pub record Network : Type 0 where
  pub version : ℕ
  pub first : ℕ
  pub host_bits : ℕ

abbrev pub size : Network → ℕ
size n = 2 ^ n.host_bits

-- `address in network`: the address, masked, is the network's first one
unfoldable pub in_network : Address → Network → Bool
in_network a n = a.version == n.version && a.number / size n * size n == n.first

-- `a.subnet_of(b)`, by the first and the last addresses
unfoldable pub subnet_of : Network → Network → Bool
subnet_of a b = leb b.first a.first && leb (a.first + size a - 1) (b.first + size b - 1)

-- The two parsers. `ip_network(text, strict=False)` clears the host bits.
pub record Ip : Type 0 where
  pub address : String → Option Address
  pub network : String → Option Network
  pub masked : (s : String) (n : Network) → network s ≡ some n → n.first % size n ≡ 0
