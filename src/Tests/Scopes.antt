-- ===== src/Tests/Scopes.antt =====
-- authorization.py on concrete texts.
use night_recon.Prelude.{[], lower, ok, raise, refl, strip, true, ◌∷◌, ◌≡◌}
use night_recon.Authorization.{
  Target, address_eq, address_type, cidr, hostname, in_network, invalid_cidr, invalid_target, ipv4,
  is_authorized, matches_rule, parse_target, scope_from_values, subnet_of,
}
use night_recon.Authorization.Safety.{scope_covers_network}
use night_recon.Tests.Platforms.{host, known_ip, narrow}

abbrev ten : Target
ten = record { value = "10.0.0.0/8"; target_type = cidr }

abbrev lab : Target
lab = record { value = "10.1.0.0/16"; target_type = cidr }

abbrev box : Target
box = record { value = "10.1.0.7"; target_type = ipv4 }

parse_host_name :
    parse_target known_ip " Lab-1.Example.ORG\n"
    ≡ ok (record { value = "lab-1.example.org"; target_type = hostname })
unfolding parse_target strip lower
parse_host_name = refl

parse_bad_name : parse_target known_ip "-lab.example" ≡ raise invalid_target
unfolding parse_target strip
parse_bad_name = refl

parse_bad_network : parse_target known_ip "10.0.0.0/99" ≡ raise invalid_cidr
unfolding parse_target strip
parse_bad_network = refl

ten_rules :
    scope_from_values known_ip ("10.0.0.0/8" ∷ "lab" ∷ [])
    ≡ ok (ten ∷ record { value = "lab"; target_type = hostname } ∷ [])
unfolding scope_from_values parse_target strip lower
ten_rules = refl

scope_covers_network_example :
    is_authorized known_ip (ten ∷ record { value = "lab"; target_type = hostname } ∷ []) box
    ≡ ok true
unfolding is_authorized matches_rule in_network subnet_of address_type address_eq
scope_covers_network_example =
    scope_covers_network known_ip ("10.0.0.0/8" ∷ "lab" ∷ []) _ lab box narrow host ten_rules refl
      refl refl refl refl refl
