-- ===== src/Privfs/Tests/FirewallTests.antt =====
-- Rules and addresses of internal/privfs/firewall.go.
use maid_cafe.Base.{ok, err, ◌≡◌, refl, ◌⊎◌, true, false, [], ◌≢◌, ◌∷◌, ◌≢◌, ◌∷◌}
use maid_cafe.Base.Text.{Bytes, codes, str_eq, split, strip_prefix, cut, to_lower, trim_space}
use maid_cafe.Privfs.Firewall.Address.{is_ip, is_cidr}
use maid_cafe.Privfs.Firewall.{
  FirewallRule, parse_firewall_rule, firewalld_rule_commands, port_pattern, bounds_fit, port_range,
  protocol_required, reload,
}
use maid_cafe.Privfs.Firewall.Rules.{Mirrored, firewalld_rule_commands-mirror}
use maid_cafe.Privfs.Names.{matches}

six : is_ip (codes "2001:db8::1:10.0.0.1") ≡ true
unfolding is_ip strip_prefix split str_eq
six = refl

octal_octet : is_ip (codes "10.0.01.1") ≡ false
unfolding is_ip split str_eq
octal_octet = refl

long_prefix : is_cidr (codes "10.0.0.0/33") ≡ false
unfolding is_cidr cut split str_eq
long_prefix = refl

double_gap : is_ip (codes "1::2::3") ≡ false
unfolding is_ip strip_prefix
double_gap = refl

too_high : parse_firewall_rule (codes "allow") (codes "80:70000") [] [] ≡ err port_range
unfolding parse_firewall_rule str_eq to_lower trim_space port_pattern cut matches bounds_fit split
too_high = refl

abbrev from_lan : FirewallRule
from_lan = record {
  action = codes "deny";
  port = codes "8000:8080";
  protocol = codes "tcp";
  source = codes "10.0.0.0/8";
}

firewalld_rule_commands-mirror_example :
    ((from_lan.protocol ≡ codes "any")
      × ((verb : Bytes) → firewalld_rule_commands verb from_lan ≡ err protocol_required))
    ⊎ ((from_lan.protocol ≢ codes "any") × Mirrored from_lan)
firewalld_rule_commands-mirror_example = firewalld_rule_commands-mirror from_lan

-- a service name is a port of firewalld as well
abbrev ssh : FirewallRule
ssh = record {
  action = codes "allow";
  port = codes "ssh";
  protocol = codes "tcp";
  source = codes "any";
}

ssh_commands :
    firewalld_rule_commands (codes "allow") ssh
    ≡ ok (
        (codes "firewall-cmd" ∷ codes "--permanent" ∷ codes "--add-port=ssh/tcp" ∷ [])
        ∷ (codes "firewall-cmd" ∷ codes "--reload" ∷ [])
        ∷ [])
unfolding firewalld_rule_commands str_eq reload
ssh_commands = refl
