-- ===== src/Firewall/Accepted.antt =====
-- Which packets the ruleset lets in.
use opennas.Base.{Bool, List, nat_eq, string_eq, list_eq, Text}
use opennas.Firewall.Networks.{FirewallConfig}
use opennas.Firewall.Rules.{SetName, ruleset_lines}
use opennas.Firewall.Packets.{Packet, elements_of}

module _ (inside : Text → Text → Bool) (banned : Text → Bool) (config : FirewallConfig)
    (p : Packet) where
  abbrev sets : SetName → List Text
  sets name = elements_of name (ruleset_lines config)
