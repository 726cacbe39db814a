-- ===== src/Firewall/Tests.antt =====
-- Runs of the firewall at concrete inputs.
use opennas.Base.{
  ℕ, ◌≡◌, refl, Bool, true, false, none, some, [], ◌∷◌, nat_eq, string_eq, list_eq, length, All,
  Text, codes, split, has_unit, starts_with, take,
}
use opennas.Files.Resolve.{trim, trim_start, trim_end}
use opennas.Firewall.Networks.{
  tcp, tcp_port, FirewallConfig, is_valid_cidr, ParsedFirewall, get_firewall_config,
}
use opennas.Firewall.Rules.{
  ruleset_lines, trusted4, trusted6, join_comma, set_start, elements, chain_start, hook, rule,
  input, drop, guarded4_accept, render,
}
use opennas.Firewall.Packets.{Packet, segment, elements_of, verdict}
use opennas.Firewall.Safe.{IsPadded, AreElementUnits, get_firewall_config-AreSafe}

abbrev lan_only : FirewallConfig
lan_only = record {
  enabled = true;
  allowed = "smb" ∷ [];
  trusted_networks = codes "10.0.0.0/8" ∷ [];
  restrict_to_trusted = true;
}

abbrev starts_with_network : Text → Text → Bool
starts_with_network network address = starts_with address (take 3 network)

abbrev no_ban : Text → Bool
no_ban address = false

abbrev to_port : Text → ℕ → Packet
to_port address port = record {
  is_six = false;
  source = address;
  is_established = false;
  is_invalid = false;
  is_loopback = false;
  payload = segment tcp 50000 port;
}

abbrev stored : ParsedFirewall
stored = record {
  enabled = true;
  allowed = some (some "smb" ∷ some "telnet" ∷ none ∷ []);
  trusted_networks = some (
      some (codes " 10.0.0.0/8")
      ∷ some (codes "10.0.0.0 } accept")
      ∷ some (codes "fe80::/10")
      ∷ []);
  restrict_to_trusted = true;
}

accepts_web :
    verdict starts_with_network no_ban (ruleset_lines lan_only) (to_port (codes "10.1.2.3") 443)
    ≡ true
unfolding ruleset_lines starts_with has_unit
accepts_web = refl

drops_foreign :
    verdict starts_with_network no_ban (ruleset_lines lan_only) (to_port (codes "8.8.8.8") 443)
    ≡ false
unfolding ruleset_lines starts_with has_unit
drops_foreign = refl

drops_ssh :
    verdict starts_with_network no_ban (ruleset_lines lan_only) (to_port (codes "10.1.2.3") 22)
    ≡ false
unfolding ruleset_lines starts_with has_unit
drops_ssh = refl

keeps_valid : length (get_firewall_config (some stored)).trusted_networks ≡ 2
unfolding get_firewall_config is_valid_cidr trim trim_start trim_end split has_unit
keeps_valid = refl

line_texts :
    (render (set_start trusted4) ≡ codes "  set trusted4 {")
    × (render (elements (codes "10.0.0.0/8" ∷ codes "10.1.0.1" ∷ []))
        ≡ codes "    elements = { 10.0.0.0/8, 10.1.0.1 }")
    × (render (chain_start input) ≡ codes "  chain input {")
    × (render (hook input drop) ≡ codes "    type filter hook input priority filter; policy drop;")
    × (render (rule (guarded4_accept (tcp_port 445)))
        ≡ codes "    ip saddr @trusted4 tcp dport 445 accept")
line_texts = (refl, refl, refl, refl, refl)

get_firewall_config-AreSafe_example :
    (let config = get_firewall_config (some stored) in
      All IsPadded config.trusted_networks
      × AreElementUnits (join_comma (elements_of trusted4 (ruleset_lines config)))
      × AreElementUnits (join_comma (elements_of trusted6 (ruleset_lines config))))
get_firewall_config-AreSafe_example = get_firewall_config-AreSafe (some stored)
