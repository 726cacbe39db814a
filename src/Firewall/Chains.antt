-- ===== src/Firewall/Chains.antt =====
-- What the rules of the chain `input` decide.
use mathlib.Core.List.{append_assoc}
use opennas.Base.{
  ◌≡◌, refl, sym, ap, ◌∙◌, inl, inr, Bool, true, false, ◌&&◌, ◌||◌, not, List, [], ◌∷◌, ◌++◌, arith,
  if◌then◌else◌, Bool-cases, nat_eq, string_eq, list_eq, any, Text, codes, is_empty,
}
use opennas.Firewall.Networks.{ServicePort, FirewallService, FirewallConfig}
use opennas.Firewall.Rules.{
  SetName, trusted4, trusted6, drop, Line, raw, enabled_services, networks4, networks6, first_rules,
  is_ip6, guarded, plain_port, port_lines, service_lines, trusted_rules, service_rules, last_lines,
}
use opennas.Firewall.Choices.{
  or_assoc, or_false, pick_both, pick_first, pick_second, pick_neither, accept_four, drop_both,
  lone_both, lone_first, lone_second, neither_way, keep_empty, any-empty,
}
use opennas.Firewall.Packets.{
  Packet, goes_to, is_reply, is_icmp, is_icmp6, in_any, in_chain, at_input,
}

module _ (inside : Text → Text → Bool) (banned : Text → Bool) (config : FirewallConfig) (p : Packet)
    (sets : SetName → List Text) (same4 : sets trusted4 ≡ networks4 config)
    (same6 : sets trusted6 ≡ networks6 config) where
  -- The two sets as they are read, and the services as they are listed.
  abbrev pub from_sets : Bool
  from_sets = if p.is_six then in_any inside (sets trusted6) p else in_any inside (sets trusted4) p

  abbrev pub from_services : Bool
  from_services =
      any (λ (s : FirewallService). any (λ q. goes_to q p.payload) s.ports)
        (enabled_services config)

  port-verdict :
      (f : ServicePort → List Line) (t : ServicePort → Bool)
      → ((q : ServicePort)
          → (rest : List Line)
          → in_chain inside banned sets drop (f q ++ rest) p
            ≡ (t q || in_chain inside banned sets drop rest p))
      → (ports : List ServicePort) (rest : List Line)
      → in_chain inside banned sets drop (port_lines f ports ++ rest) p
        ≡ (any t ports || in_chain inside banned sets drop rest p)
  port-verdict f t h [] rest = refl
  port-verdict f t h (q ∷ ports) rest =
      ap (λ z. in_chain inside banned sets drop z p) (append_assoc (f q) (port_lines f ports) rest)
      ∙ h q (port_lines f ports ++ rest)
      ∙ ap (λ b. t q || b) (port-verdict f t h ports rest)
      ∙ or_assoc (t q) (any t ports) (in_chain inside banned sets drop rest p)

  service-verdict :
      (f : ServicePort → List Line) (t : ServicePort → Bool)
      → ((q : ServicePort)
          → (rest : List Line)
          → in_chain inside banned sets drop (f q ++ rest) p
            ≡ (t q || in_chain inside banned sets drop rest p))
      → (services : List FirewallService) (rest : List Line)
      → in_chain inside banned sets drop (service_lines f services ++ rest) p ≡ (
          any (λ (s : FirewallService). any t s.ports) services
          || in_chain inside banned sets drop rest p)
  service-verdict f t h [] rest = refl
  service-verdict f t h (s ∷ services) rest =
      ap (λ z. in_chain inside banned sets drop z p)
        (append_assoc (port_lines f s.ports) (service_lines f services) rest)
      ∙ port-verdict f t h s.ports (service_lines f services ++ rest)
      ∙ ap (λ b. any t s.ports || b) (service-verdict f t h services rest)
      ∙ or_assoc (any t s.ports) (any (λ (z : FirewallService). any t z.ports) services)
          (in_chain inside banned sets drop rest p)

  plain-verdict :
      (q : ServicePort) (rest : List Line)
      → in_chain inside banned sets drop (plain_port q ++ rest) p
        ≡ (goes_to q p.payload || in_chain inside banned sets drop rest p)
  plain-verdict q rest = elim (Bool-cases (goes_to q p.payload)) [
    | inl hit ↦ rw hit
    | inr miss ↦ rw miss
  ]

  guarded-verdict :
      (has4 has6 : Bool)
      → (has4 ≡ false → in_any inside (sets trusted4) p ≡ false)
      → (has6 ≡ false → in_any inside (sets trusted6) p ≡ false)
      → (q : ServicePort) (rest : List Line)
      → in_chain inside banned sets drop (guarded has4 has6 q ++ rest) p
        ≡ ((from_sets && goes_to q p.payload) || in_chain inside banned sets drop rest p)
  guarded-verdict true true h k q rest =
      pick_both p.is_six (in_any inside (sets trusted4) p) (in_any inside (sets trusted6) p)
        (goes_to q p.payload) (in_chain inside banned sets drop rest p)
  guarded-verdict true false h k q rest =
      pick_first p.is_six (in_any inside (sets trusted4) p) (in_any inside (sets trusted6) p)
        (goes_to q p.payload) (in_chain inside banned sets drop rest p) (k refl)
  guarded-verdict false true h k q rest =
      pick_second p.is_six (in_any inside (sets trusted4) p) (in_any inside (sets trusted6) p)
        (goes_to q p.payload) (in_chain inside banned sets drop rest p) (h refl)
  guarded-verdict false false h k q rest =
      pick_neither p.is_six (in_any inside (sets trusted4) p) (in_any inside (sets trusted6) p)
        (goes_to q p.payload) (in_chain inside banned sets drop rest p) (h refl) (k refl)

  any-and :
      {A : Type 0}
      → (b : Bool) (f : A → Bool) (xs : List A) → any (λ x. b && f x) xs ≡ (b && any f xs)
  any-and true f xs = refl
  any-and false f [] = refl
  any-and false f (x ∷ xs) = any-and false f xs

  services-and :
      (b : Bool) (t : ServicePort → Bool) (services : List FirewallService)
      → any (λ (s : FirewallService). any (λ q. b && t q) s.ports) services
        ≡ (b && any (λ (s : FirewallService). any t s.ports) services)
  services-and true t services = refl
  services-and false t [] = refl
  services-and false t (s ∷ services) =
      ap (λ x. x || any (λ (z : FirewallService). any (λ q. false && t q) z.ports) services)
        (any-and false t s.ports)
      ∙ services-and false t services

  last_lines-verdict : in_chain inside banned sets drop last_lines p ≡ false
  last_lines-verdict = refl

  from_sets-none : is_empty config.trusted_networks ≡ true → from_sets ≡ false
  from_sets-none h =
      neither_way p.is_six
        (any-empty (λ n. inside n p.source) (sets trusted4)
          (rw same4 (keep_empty (λ n. not (is_ip6 n)) config.trusted_networks h)))
        (any-empty (λ n. inside n p.source) (sets trusted6)
          (rw same6 (keep_empty is_ip6 config.trusted_networks h)))

  four-none : not (is_empty (networks4 config)) ≡ false → in_any inside (sets trusted4) p ≡ false
  four-none h = any-empty (λ n. inside n p.source) (sets trusted4) (rw same4 (ground arith))

  six-none : not (is_empty (networks6 config)) ≡ false → in_any inside (sets trusted6) p ≡ false
  six-none h = any-empty (λ n. inside n p.source) (sets trusted6) (rw same6 (ground arith))

  trusted-verdict :
      (has4 has6 : Bool)
      → (has4 ≡ false → in_any inside (sets trusted4) p ≡ false)
      → (has6 ≡ false → in_any inside (sets trusted6) p ≡ false)
      → (rest : List Line)
      → in_chain inside banned sets drop (trusted_rules has4 has6 ++ rest) p
        ≡ (from_sets || in_chain inside banned sets drop rest p)
  trusted-verdict true true h k rest =
      lone_both p.is_six (in_any inside (sets trusted4) p) (in_any inside (sets trusted6) p)
        (in_chain inside banned sets drop rest p)
  trusted-verdict true false h k rest =
      lone_first p.is_six (in_any inside (sets trusted4) p) (in_any inside (sets trusted6) p)
        (in_chain inside banned sets drop rest p) (k refl)
  trusted-verdict false true h k rest =
      lone_second p.is_six (in_any inside (sets trusted4) p) (in_any inside (sets trusted6) p)
        (in_chain inside banned sets drop rest p) (h refl)
  trusted-verdict false false h k rest =
      ap (λ b. b || in_chain inside banned sets drop rest p)
        (sym (neither_way p.is_six (h refl) (k refl)))

  plain-all :
      in_chain inside banned sets drop
        (service_lines plain_port (enabled_services config) ++ last_lines)
        p
      ≡ from_services
  plain-all =
      service-verdict plain_port (λ q. goes_to q p.payload) plain-verdict (enabled_services config)
        last_lines
      ∙ or_false (from_services)

  service_rules-verdict_of :
      (restricted none_trusted : Bool)
      → (none_trusted ≡ true → from_sets ≡ false)
      → let has4 = not (is_empty (networks4 config)) in
        let has6 = not (is_empty (networks6 config)) in
        in_chain inside banned sets drop
          ((if restricted
              then raw (codes "    # Everything below is limited to the trusted networks.")
                ∷ service_lines (guarded has4 has6) (enabled_services config)
              else (if none_trusted then [] else trusted_rules has4 has6)
                ++ service_lines plain_port (enabled_services config))
            ++ last_lines)
          p
        ≡ (if restricted then from_sets && from_services else from_sets || from_services)
  service_rules-verdict_of true none_trusted h =
      let has4 = not (is_empty (networks4 config)) in
      let has6 = not (is_empty (networks6 config)) in
      service-verdict (guarded has4 has6) (λ q. from_sets && goes_to q p.payload)
        (guarded-verdict has4 has6 four-none six-none) (enabled_services config) last_lines
      ∙ ap (λ b. b || false)
          (services-and (from_sets) (λ q. goes_to q p.payload) (enabled_services config))
      ∙ or_false (from_sets && from_services)
  service_rules-verdict_of false true h = plain-all ∙ ap (λ b. b || from_services) (sym (h refl))
  service_rules-verdict_of false false h =
      let has4 = not (is_empty (networks4 config)) in
      let has6 = not (is_empty (networks6 config)) in
      ap (λ z. in_chain inside banned sets drop z p)
        (append_assoc (trusted_rules has4 has6) (service_lines plain_port (enabled_services config))
          last_lines)
      ∙ trusted-verdict has4 has6 four-none six-none
          (service_lines plain_port (enabled_services config) ++ last_lines)
      ∙ ap (λ b. from_sets || b) plain-all

  pub service_rules-verdict :
      in_chain inside banned sets drop (service_rules config ++ last_lines) p ≡ (
        if config.restrict_to_trusted && not (is_empty config.trusted_networks)
        then from_sets && from_services
        else from_sets || from_services)
  service_rules-verdict =
      service_rules-verdict_of
        (config.restrict_to_trusted && not (is_empty config.trusted_networks))
        (is_empty config.trusted_networks) from_sets-none

  abbrev before : Bool → Bool
  before v =
      if p.is_established
      then true
      else (if p.is_invalid then false else (if p.is_loopback then true else v))

  abbrev icmp_or_else : Bool → Bool
  icmp_or_else v =
      if not p.is_six && is_icmp p.payload
      then true
      else (if is_icmp6 p.payload
          then true
          else (if is_reply 67 68 p.payload
              then true
              else (if is_reply 547 546 p.payload then true else v)))

  pub first_rules-verdict :
      (rest : List Line) (admitted : Bool)
      → in_chain inside banned sets drop rest p ≡ admitted
      → at_input inside banned sets (first_rules ++ rest) p ≡ (
          if p.is_established
          then true
          else if p.is_invalid
          then false
          else if p.is_loopback
          then true
          else if banned p.source
          then false
          else (not p.is_six && is_icmp p.payload || is_icmp6 p.payload)
            || ((is_reply 67 68 p.payload || is_reply 547 546 p.payload) || admitted))
  first_rules-verdict rest admitted h =
      let after =
        accept_four (not p.is_six && is_icmp p.payload) (is_icmp6 p.payload)
          (is_reply 67 68 p.payload) (is_reply 547 546 p.payload) admitted in
      ap before (
        drop_both p.is_six (banned p.source)
          (icmp_or_else (in_chain inside banned sets drop rest p))
        ∙ ap (λ v. if banned p.source then false else v) (ap icmp_or_else h ∙ after))
