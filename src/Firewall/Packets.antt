-- ===== src/Firewall/Packets.antt =====
-- How nftables, as it is documented, decides on a packet by the rules that apps/api/src/system/firewall.ts writes.
use opennas.Base.{
  ℕ, String, Bool, true, false, ◌&&◌, ◌||◌, not, List, [], ◌∷◌, if◌then◌else◌, ◌==◌, nat_eq,
  string_eq, list_eq, any, Text, is_empty, has_unit,
}
use opennas.Firewall.Networks.{
  Proto, tcp, udp, ServicePort, tcp_port, FirewallService, firewall_services, FirewallConfig,
}
use opennas.Firewall.Rules.{
  Rule, established_accept, invalid_drop, loopback_accept, banned4_drop, banned6_drop, icmp_accept,
  icmp6_accept, dhcp_accept, dhcp6_accept, trusted4_accept, trusted6_accept, port_accept,
  guarded4_accept, guarded6_accept, SetName, trusted4, trusted6, banned4, banned6, input, Policy,
  accept, drop, Line, Family, ip, ip6, set_type, set_start, elements, chain_start, hook, rule,
  close_block,
}

-- What a packet carries; a segment has the ports of its source and of its destination.
pub data Payload : Type 0 where
  icmp icmp6 other : Payload
  segment : Proto → ℕ → ℕ → Payload

pub record Packet : Type 0 where
  pub is_six : Bool
  pub source : Text
  pub is_established : Bool
  pub is_invalid : Bool
  pub is_loopback : Bool
  pub payload : Payload

abbrev pub same_proto : Proto → Proto → Bool
same_proto tcp tcp = true
same_proto tcp udp = false
same_proto udp tcp = false
same_proto udp udp = true

abbrev pub goes_to : ServicePort → Payload → Bool
goes_to q icmp = false
goes_to q icmp6 = false
goes_to q other = false
goes_to q (segment proto from dest) = same_proto q.proto proto && q.port == dest

abbrev pub is_reply : ℕ → ℕ → Payload → Bool
is_reply a b icmp = false
is_reply a b icmp6 = false
is_reply a b other = false
is_reply a b (segment proto from dest) = same_proto udp proto && from == a && dest == b

abbrev pub is_icmp : Payload → Bool
is_icmp icmp = true
is_icmp icmp6 = false
is_icmp other = false
is_icmp (segment proto from dest) = false

abbrev pub is_icmp6 : Payload → Bool
is_icmp6 icmp = false
is_icmp6 icmp6 = true
is_icmp6 other = false
is_icmp6 (segment proto from dest) = false

abbrev pub same_bool : Bool → Bool → Bool
same_bool a true = a
same_bool a false = not a

-- What the administrator was promised. A network with a colon is one of IPv6; a network is trusted for packets of
-- its own family.
abbrev pub is_trusted : (Text → Text → Bool) → FirewallConfig → Packet → Bool
is_trusted inside config p =
    any (λ n. same_bool (has_unit 58 n) p.is_six && inside n p.source) config.trusted_networks

abbrev pub to_service : String → Payload → Bool
to_service id payload =
    any (λ (s : FirewallService). id == s.id && any (λ q. goes_to q payload) s.ports)
      firewall_services

abbrev pub to_web : Payload → Bool
to_web payload = goes_to (tcp_port 80) payload || goes_to (tcp_port 443) payload

-- The web interface is open whatever the list says, so that the administrator is never shut out.
abbrev pub is_served : FirewallConfig → Packet → Bool
is_served config p = to_web p.payload || any (λ id. to_service id p.payload) config.allowed

abbrev pub is_admitted : (Text → Text → Bool) → FirewallConfig → Packet → Bool
is_admitted inside config p =
    if config.restrict_to_trusted && not (is_empty config.trusted_networks)
    then is_trusted inside config p && is_served config p
    else is_trusted inside config p || is_served config p

abbrev pub same_set : SetName → SetName → Bool
same_set trusted4 trusted4 = true
same_set trusted6 trusted6 = true
same_set banned4 banned4 = true
same_set banned6 banned6 = true
same_set a b = false

-- The type that the rules want of a set, by the family of the address that they look up in it.
abbrev pub wanted : SetName → Family
wanted trusted4 = ip
wanted trusted6 = ip6
wanted banned4 = ip
wanted banned6 = ip6

abbrev pub same_family : Family → Family → Bool
same_family ip ip = true
same_family ip6 ip6 = true
same_family a b = false

-- The elements that a set is declared with: those listed before its block ends, of a set of the wanted type.
abbrev pub elements_in : Family → List Line → List Text
elements_in kind [] = []
elements_in kind (elements networks ∷ lines) = networks
elements_in kind (close_block ∷ lines) = []
elements_in kind (set_type declared ∷ lines) =
    let later = elements_in kind lines in if same_family declared kind then later else []
elements_in kind (line ∷ lines) = elements_in kind lines

abbrev pub elements_of : SetName → List Line → List Text
elements_of name [] = []
elements_of name (set_start opened ∷ lines) =
    let later = elements_of name lines in
    if same_set opened name then elements_in (wanted name) lines else later
elements_of name (line ∷ lines) = elements_of name lines

abbrev pub in_any : (Text → Text → Bool) → List Text → Packet → Bool
in_any inside networks p = any (λ n. inside n p.source) networks

abbrev pub is_accept : Policy → Bool
is_accept accept = true
is_accept drop = false

-- nftables as it is documented, for the lines that occur: `inside` is the membership of an address in a network,
-- `banned` that in the kernel's set of its family, to which bans are added while it runs, and `sets` the elements
-- that the other sets are declared with.
module _ (inside : Text → Text → Bool) (banned : Text → Bool) where
  abbrev pub matches : (SetName → List Text) → Rule → Packet → Bool
  matches sets established_accept p = p.is_established
  matches sets invalid_drop p = p.is_invalid
  matches sets loopback_accept p = p.is_loopback
  matches sets banned4_drop p = not p.is_six && banned p.source
  matches sets banned6_drop p = p.is_six && banned p.source
  matches sets icmp_accept p = not p.is_six && is_icmp p.payload
  matches sets icmp6_accept p = is_icmp6 p.payload
  matches sets dhcp_accept p = is_reply 67 68 p.payload
  matches sets dhcp6_accept p = is_reply 547 546 p.payload
  matches sets trusted4_accept p = not p.is_six && in_any inside (sets trusted4) p
  matches sets trusted6_accept p = p.is_six && in_any inside (sets trusted6) p
  matches sets (port_accept q) p = goes_to q p.payload
  matches sets (guarded4_accept q) p =
      not p.is_six && in_any inside (sets trusted4) p && goes_to q p.payload
  matches sets (guarded6_accept q) p =
      p.is_six && in_any inside (sets trusted6) p && goes_to q p.payload

  abbrev pub accepts : Rule → Bool
  accepts invalid_drop = false
  accepts banned4_drop = false
  accepts banned6_drop = false
  accepts r = true

  -- In a chain the first rule that matches decides, and the policy where none does.
  abbrev pub in_chain : (SetName → List Text) → Policy → List Line → Packet → Bool
  in_chain sets policy [] p = is_accept policy
  in_chain sets policy (close_block ∷ lines) p = is_accept policy
  in_chain sets policy (hook c chosen ∷ lines) p = in_chain sets chosen lines p
  in_chain sets policy (rule r ∷ lines) p =
      let rest = in_chain sets policy lines p in if matches sets r p then accepts r else rest
  in_chain sets policy (line ∷ lines) p = in_chain sets policy lines p

  -- A packet to the machine goes through the chain `input`; what no chain refuses is let in.
  abbrev pub at_input : (SetName → List Text) → List Line → Packet → Bool
  at_input sets [] p = true
  at_input sets (chain_start input ∷ lines) p = in_chain sets accept lines p
  at_input sets (line ∷ lines) p = at_input sets lines p

  abbrev pub verdict : List Line → Packet → Bool
  verdict lines p = at_input (λ name. elements_of name lines) lines p

  abbrev pub allows : FirewallConfig → Packet → Bool
  allows config p =
      if p.is_established
      then true
      else if p.is_invalid
      then false
      else if p.is_loopback
      then true
      else if banned p.source
      then false
      else (not p.is_six && is_icmp p.payload || is_icmp6 p.payload)
        || ((is_reply 67 68 p.payload || is_reply 547 546 p.payload) || is_admitted inside config p)
