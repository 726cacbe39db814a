-- ===== src/Firewall/Rules.antt =====
-- apps/api/src/system/firewall.ts: generateRuleset. A line opens or closes a set or a chain,
-- lists the elements of a set, says the policy of a chain, is a rule, or is a text that decides nothing.
use opennas.Base.{
  ℕ, zero, suc, ◌+◌, ◌/◌, ◌%◌, Bool, ◌&&◌, ◌||◌, not, List, [], ◌∷◌, ◌++◌, map, if◌then◌else◌, ltb,
  ◌==◌, nat_eq, string_eq, any, keep, Text, codes, is_empty, has_unit, join,
}
use opennas.Firewall.Networks.{
  Proto, tcp, udp, ServicePort, FirewallService, firewall_services, FirewallConfig,
}

pub data Family : Type 0 where
  ip ip6 : Family

abbrev pub family : Text → Family
family cidr = if has_unit 58 cidr then ip6 else ip

abbrev pub is_ip6 : Text → Bool
is_ip6 cidr = has_unit 58 cidr

pub data Rule : Type 0 where
  established_accept invalid_drop loopback_accept banned4_drop banned6_drop : Rule
  icmp_accept icmp6_accept dhcp_accept dhcp6_accept trusted4_accept trusted6_accept : Rule
  port_accept : ServicePort → Rule
  guarded4_accept guarded6_accept : ServicePort → Rule

pub data SetName : Type 0 where
  trusted4 trusted6 banned4 banned6 : SetName

pub data Chain : Type 0 where
  input forward output : Chain

pub data Policy : Type 0 where
  accept drop : Policy

pub data Line : Type 0 where
  raw : Text → Line
  set_start : SetName → Line
  set_type : Family → Line
  elements : List Text → Line
  chain_start : Chain → Line
  hook : Chain → Policy → Line
  rule : Rule → Line
  close_block : Line

abbrev pub proto_name : Proto → Text
proto_name tcp = codes "tcp"
proto_name udp = codes "udp"

-- The decimal digits of a port, which are five at most.
abbrev pub decimal : ℕ → ℕ → Text
decimal zero n = []
decimal (suc fuel) n =
    let front = decimal fuel (n / 10) in
    if ltb n 10 then (48 + n) ∷ [] else front ++ (48 + n % 10) ∷ []

abbrev pub dport : ServicePort → Text
dport p = proto_name p.proto ++ codes " dport " ++ decimal 5 p.port ++ codes " accept"

abbrev pub render_rule : Rule → Text
render_rule established_accept = codes "    ct state established,related accept"
render_rule invalid_drop = codes "    ct state invalid drop"
render_rule loopback_accept = codes "    iif lo accept"
render_rule banned4_drop = codes "    ip saddr @banned4 drop"
render_rule banned6_drop = codes "    ip6 saddr @banned6 drop"
render_rule icmp_accept = codes "    ip protocol icmp accept"
render_rule icmp6_accept = codes "    meta l4proto ipv6-icmp accept"
render_rule dhcp_accept = codes "    udp sport 67 udp dport 68 accept"
render_rule dhcp6_accept = codes "    udp sport 547 udp dport 546 accept"
render_rule trusted4_accept = codes "    ip saddr @trusted4 accept"
render_rule trusted6_accept = codes "    ip6 saddr @trusted6 accept"
render_rule (port_accept p) = codes "    " ++ dport p
render_rule (guarded4_accept p) = codes "    ip saddr @trusted4 " ++ dport p
render_rule (guarded6_accept p) = codes "    ip6 saddr @trusted6 " ++ dport p

abbrev pub set_name : SetName → Text
set_name trusted4 = codes "trusted4"
set_name trusted6 = codes "trusted6"
set_name banned4 = codes "banned4"
set_name banned6 = codes "banned6"

abbrev pub chain_name : Chain → Text
chain_name input = codes "input"
chain_name forward = codes "forward"
chain_name output = codes "output"

abbrev pub policy_name : Policy → Text
policy_name accept = codes "accept"
policy_name drop = codes "drop"

-- `list.join(", ")`
abbrev pub join_comma : List Text → Text
join_comma [] = []
join_comma (w ∷ []) = w
join_comma (w ∷ v ∷ ws) = w ++ (codes ", " ++ join_comma (v ∷ ws))

abbrev pub render : Line → Text
render (raw text) = text
render (set_start name) = codes "  set " ++ set_name name ++ codes " {"
render (set_type ip) = codes "    type ipv4_addr"
render (set_type ip6) = codes "    type ipv6_addr"
render (elements networks) = codes "    elements = { " ++ join_comma networks ++ codes " }"
render (chain_start c) = codes "  chain " ++ chain_name c ++ codes " {"
render (hook c policy) =
    codes "    type filter hook "
    ++ chain_name c
    ++ codes " priority filter; policy "
    ++ policy_name policy
    ++ codes ";"
render (rule r) = render_rule r
render close_block = codes "  }"

abbrev pub is_enabled : FirewallConfig → FirewallService → Bool
is_enabled config s = s.always_on || any (λ id. id == s.id) config.allowed

abbrev pub enabled_services : FirewallConfig → List FirewallService
enabled_services config = keep (is_enabled config) firewall_services

abbrev pub networks4 : FirewallConfig → List Text
networks4 config = keep (λ n. not (is_ip6 n)) config.trusted_networks

abbrev pub networks6 : FirewallConfig → List Text
networks6 config = keep is_ip6 config.trusted_networks

abbrev pub set_lines : SetName → Family → List Text → List Line
set_lines name kind networks =
    if is_empty networks
    then []
    else set_start name
      ∷ set_type kind
      ∷ raw (codes "    flags interval")
      ∷ elements networks
      ∷ close_block
      ∷ []

abbrev pub trusted_sets : FirewallConfig → List Line
trusted_sets config =
    if is_empty config.trusted_networks
    then []
    else set_lines trusted4 ip (networks4 config)
      ++ set_lines trusted6 ip6 (networks6 config)
      ++ raw [] ∷ []

abbrev pub head_lines : List Line
head_lines =
    raw (codes "#!/usr/sbin/nft -f")
    ∷ raw (codes "# Generated by OpenNAS - do not edit by hand.")
    ∷ raw []
    ∷ raw (codes "# Replace only *our* table, atomically. `flush ruleset` would be simpler and")
    ∷ raw (codes "# would also delete the tables Docker and libvirt install for container and")
    ∷ raw (codes "# VM networking - applying a firewall would silently break both. The bare")
    ∷ raw (codes "# `table` line creates it when absent so the delete can't fail on first run.")
    ∷ raw (codes "table inet opennas")
    ∷ raw (codes "delete table inet opennas")
    ∷ raw []
    ∷ raw (codes "table inet opennas {")
    ∷ []

abbrev pub banned_sets : List Line
banned_sets =
    set_start banned4
    ∷ set_type ip
    ∷ raw (codes "    flags dynamic,timeout")
    ∷ close_block
    ∷ raw []
    ∷ set_start banned6
    ∷ set_type ip6
    ∷ raw (codes "    flags dynamic,timeout")
    ∷ close_block
    ∷ raw []
    ∷ []

abbrev pub first_rules : List Line
first_rules =
    chain_start input
    ∷ hook input drop
    ∷ raw []
    ∷ raw (codes "    # Anything the box started itself, and its own loopback.")
    ∷ rule established_accept
    ∷ rule invalid_drop
    ∷ rule loopback_accept
    ∷ raw []
    ∷ raw (codes "    # Banned for repeated failed sign-ins. Placed after the loopback and")
    ∷ raw (codes "    # established-connection rules so a ban can never cut the box off from")
    ∷ raw (codes "    # itself or kill a connection that was already accepted, and before")
    ∷ raw (codes "    # every accept below so it actually takes effect.")
    ∷ rule banned4_drop
    ∷ rule banned6_drop
    ∷ raw []
    ∷ raw (codes "    # ICMP, including the bits IPv6 stops working without.")
    ∷ rule icmp_accept
    ∷ rule icmp6_accept
    ∷ raw []
    ∷ raw (codes "    # DHCP replies, or the box loses its lease and disappears.")
    ∷ rule dhcp_accept
    ∷ rule dhcp6_accept
    ∷ raw []
    ∷ []

abbrev pub guarded : Bool → Bool → ServicePort → List Line
guarded has4 has6 p =
    (if has4 then rule (guarded4_accept p) ∷ [] else [])
    ++ (if has6 then rule (guarded6_accept p) ∷ [] else [])

abbrev pub plain_port : ServicePort → List Line
plain_port p = rule (port_accept p) ∷ []

-- The loop over the ports of a service, and the one over the services.
abbrev pub port_lines : (ServicePort → List Line) → List ServicePort → List Line
port_lines f [] = []
port_lines f (p ∷ ports) = f p ++ port_lines f ports

abbrev pub service_lines : (ServicePort → List Line) → List FirewallService → List Line
service_lines f [] = []
service_lines f (s ∷ services) =
    raw (codes "    # " ++ codes s.name) ∷ (port_lines f s.ports ++ service_lines f services)

abbrev pub trusted_rules : Bool → Bool → List Line
trusted_rules has4 has6 =
    raw (codes "    # Trusted networks reach everything, whatever is toggled below.")
    ∷ ((if has4 then rule trusted4_accept ∷ [] else [])
        ++ ((if has6 then rule trusted6_accept ∷ [] else []) ++ raw [] ∷ []))

abbrev pub service_rules : FirewallConfig → List Line
service_rules config =
    let has4 = not (is_empty (networks4 config)) in
    let has6 = not (is_empty (networks6 config)) in
    if config.restrict_to_trusted && not (is_empty config.trusted_networks)
    then raw (codes "    # Everything below is limited to the trusted networks.")
      ∷ service_lines (guarded has4 has6) (enabled_services config)
    else (if is_empty config.trusted_networks then [] else trusted_rules has4 has6)
      ++ service_lines plain_port (enabled_services config)

abbrev pub last_lines : List Line
last_lines =
    close_block
    ∷ raw []
    ∷ raw (codes "  # Containers and VMs do their own forwarding; leave that alone rather than")
    ∷ raw (codes "  # breaking Docker's and libvirt's chains, which live in other tables.")
    ∷ chain_start forward
    ∷ hook forward accept
    ∷ close_block
    ∷ raw []
    ∷ chain_start output
    ∷ hook output accept
    ∷ close_block
    ∷ raw (codes "}")
    ∷ raw []
    ∷ []

unfoldable pub ruleset_lines : FirewallConfig → List Line
ruleset_lines config =
    head_lines
    ++ (trusted_sets config
        ++ (banned_sets ++ (first_rules ++ (service_rules config ++ last_lines))))

unfoldable pub generate_ruleset : FirewallConfig → Text
unfolding ruleset_lines
generate_ruleset config = join 10 (map render (ruleset_lines config))
