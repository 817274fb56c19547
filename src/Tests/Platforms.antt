-- ===== src/Tests/Platforms.antt =====
-- Parsers that know a few texts, for the runs of the other modules.
use mathlib.Core.Path.{subst}
use night_recon.Prelude.{
  Bool-cases, Option, String, arith, bool_Eq, false, if◌then◌else◌, inl, inr, list_Eq, nat_Eq, none,
  option_Eq, pair_Eq, refl, some, string_Eq, true, ◌%◌, ◌==◌, ◌≡◌,
}
use night_recon.Authorization.{Address, Ip, Network, address_Eq, size}
use night_recon.Policy.{Datetime, Platform}

abbrev pub wide : Network
wide = record { version = 4; first = 0x0a000000; host_bits = 24 }

abbrev pub narrow : Network
narrow = record { version = 4; first = 0x0a010000; host_bits = 16 }

abbrev pub host : Address
host = record { version = 4; number = 0x0a010007; scope_id = none }

abbrev pub known_network : String → Option Network
known_network s =
    if s == "10.0.0.0/8" then some wide else if s == "10.1.0.0/16" then some narrow else none

pub known_network-masked :
    (s : String) (n : Network) → known_network s ≡ some n → n.first % size n ≡ 0
known_network-masked s n h = elim (Bool-cases (s == "10.0.0.0/8")) [
  | inl a ↦
      subst (λ (m : Network). m.first % size m ≡ 0) {x = wide} {y = n} (ground (arith, a, h)) refl
  | inr a ↦ elim (Bool-cases (s == "10.1.0.0/16")) [
    | inl b ↦
        subst (λ (m : Network). m.first % size m ≡ 0) {x = narrow} {y = n} (ground (arith, a, b, h))
          refl
    | inr b ↦ absurd (ground (arith, a, b, h))
  ]
]

abbrev pub known_ip : Ip
known_ip = record {
  address = λ s. if s == "10.1.0.7" then some host else none;
  network = known_network;
  masked = known_network-masked;
}

abbrev pub known_time : String → Option Datetime
known_time s =
    if s == "2026-01-01T00:00:00+00:00"
    then some (record { instant = 1000; aware = true })
    else if s == "2026-12-31T00:00:00+00:00"
    then some (record { instant = 9000; aware = true })
    else if s == "2026-02-01T00:00:00+00:00"
    then some (record { instant = 2000; aware = true })
    else if s == "2026-03-01T00:00:00+00:00"
    then some (record { instant = 3000; aware = true })
    else if s == "2026-12-31"
    then some (record { instant = 9000; aware = false })
    else none

abbrev pub known : Platform
known = record { ip = known_ip; fromisoformat = known_time }
