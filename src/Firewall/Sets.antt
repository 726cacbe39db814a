-- ===== src/Firewall/Sets.antt =====
-- The elements that the ruleset declares its sets with, and where its chain `input` is found.
use opennas.Base.{
  ◌≡◌, refl, sym, ap, ◌∙◌, Bool, true, false, ◌&&◌, not, List, [], ◌∷◌, ◌++◌, if◌then◌else◌, nat_eq,
  string_eq, list_eq, keep, Text, codes, is_empty, clash,
}
use mathlib.Core.List.{append_assoc}
use opennas.Firewall.Networks.{ServicePort, FirewallService, FirewallConfig}
use opennas.Firewall.Rules.{
  SetName, trusted4, trusted6, Line, raw, enabled_services, networks4, networks6, set_lines, ip,
  ip6, banned_sets, first_rules, is_ip6, guarded, plain_port, port_lines, service_lines,
  trusted_rules, service_rules, last_lines, ruleset_lines, ip, ip6,
}
use opennas.Firewall.Packets.{Packet, elements_of, at_input}

keep_none : {A : Type 0} → (f : A → Bool) (xs : List A) → is_empty xs ≡ true → keep f xs ≡ []
keep_none f [] h = refl
keep_none f (x ∷ xs) h = absurd (clash refl h)

-- The rules of the services declare nothing.
module _ (name : SetName) (f : ServicePort → List Line)
    (skips : (q : ServicePort) (rest : List Line)
      → elements_of name (f q ++ rest) ≡ elements_of name rest) where
  elements_of-port_lines :
      (ports : List ServicePort) (rest : List Line)
      → elements_of name (port_lines f ports ++ rest) ≡ elements_of name rest
  elements_of-port_lines [] rest = refl
  elements_of-port_lines (q ∷ ports) rest =
      ap (elements_of name) (append_assoc (f q) (port_lines f ports) rest)
      ∙ skips q (port_lines f ports ++ rest)
      ∙ elements_of-port_lines ports rest

  elements_of-service_lines :
      (services : List FirewallService) (rest : List Line)
      → elements_of name (service_lines f services ++ rest) ≡ elements_of name rest
  elements_of-service_lines [] rest = refl
  elements_of-service_lines (s ∷ services) rest =
      ap (elements_of name) (append_assoc (port_lines f s.ports) (service_lines f services) rest)
      ∙ elements_of-port_lines s.ports (service_lines f services ++ rest)
      ∙ elements_of-service_lines services rest

elements_of-guarded :
    (name : SetName) (has4 has6 : Bool) (q : ServicePort) (rest : List Line)
    → elements_of name (guarded has4 has6 q ++ rest) ≡ elements_of name rest
elements_of-guarded name true true q rest = refl
elements_of-guarded name true false q rest = refl
elements_of-guarded name false true q rest = refl
elements_of-guarded name false false q rest = refl

elements_of-trusted_rules :
    (name : SetName) (has4 has6 : Bool) (rest : List Line)
    → elements_of name (trusted_rules has4 has6 ++ rest) ≡ elements_of name rest
elements_of-trusted_rules name true true rest = refl
elements_of-trusted_rules name true false rest = refl
elements_of-trusted_rules name false true rest = refl
elements_of-trusted_rules name false false rest = refl

elements_of-rules :
    (name : SetName) (restricted none_trusted has4 has6 : Bool) (services : List FirewallService)
    → elements_of name (
        (if restricted
          then raw (codes "    # Everything below is limited to the trusted networks.")
            ∷ service_lines (guarded has4 has6) services
          else (if none_trusted then [] else trusted_rules has4 has6)
            ++ service_lines plain_port services)
        ++ last_lines)
      ≡ []
elements_of-rules name true none_trusted has4 has6 services =
    elements_of-service_lines name (guarded has4 has6) (elements_of-guarded name has4 has6) services
      last_lines
elements_of-rules name false true has4 has6 services =
    elements_of-service_lines name plain_port (λ q rest. refl) services last_lines
elements_of-rules name false false has4 has6 services =
    ap (elements_of name)
      (append_assoc (trusted_rules has4 has6) (service_lines plain_port services) last_lines)
    ∙ elements_of-trusted_rules name has4 has6 (service_lines plain_port services ++ last_lines)
    ∙ elements_of-service_lines name plain_port (λ q rest. refl) services last_lines

abbrev both_sets : Bool → List Text → List Text → List Line
both_sets none_trusted v4 v6 =
    if none_trusted
    then []
    else set_lines trusted4 ip v4 ++ set_lines trusted6 ip6 v6 ++ raw [] ∷ []

elements_of-both4 :
    (none_trusted : Bool) (v4 v6 : List Text) (rest : List Line)
    → (none_trusted ≡ true → v4 ≡ [])
    → elements_of trusted4 rest ≡ []
    → elements_of trusted4 (both_sets none_trusted v4 v6 ++ rest) ≡ v4
elements_of-both4 true v4 v6 rest none_at e = e ∙ sym (none_at refl)
elements_of-both4 false [] [] rest none_at e = e
elements_of-both4 false [] (n ∷ v6) rest none_at e = e
elements_of-both4 false (n ∷ v4) v6 rest none_at e = refl

elements_of-both6 :
    (none_trusted : Bool) (v4 v6 : List Text) (rest : List Line)
    → (none_trusted ≡ true → v6 ≡ [])
    → elements_of trusted6 rest ≡ []
    → elements_of trusted6 (both_sets none_trusted v4 v6 ++ rest) ≡ v6
elements_of-both6 true v4 v6 rest none_at e = e ∙ sym (none_at refl)
elements_of-both6 false [] [] rest none_at e = e
elements_of-both6 false [] (n ∷ v6) rest none_at e = refl
elements_of-both6 false (m ∷ v4) [] rest none_at e = e
elements_of-both6 false (m ∷ v4) (n ∷ v6) rest none_at e = refl

module _ (config : FirewallConfig) where
  elements_of-tail : (name : SetName) → elements_of name (service_rules config ++ last_lines) ≡ []
  elements_of-tail name =
      elements_of-rules name (config.restrict_to_trusted && not (is_empty config.trusted_networks))
        (is_empty config.trusted_networks) (not (is_empty (networks4 config)))
        (not (is_empty (networks6 config))) (enabled_services config)

  pub elements_of-trusted4 : elements_of trusted4 (ruleset_lines config) ≡ networks4 config
  unfolding ruleset_lines
  elements_of-trusted4 =
      elements_of-both4 (is_empty config.trusted_networks) (networks4 config) (networks6 config)
        (banned_sets ++ (first_rules ++ (service_rules config ++ last_lines)))
        (keep_none (λ n. not (is_ip6 n)) config.trusted_networks) (elements_of-tail trusted4)

  pub elements_of-trusted6 : elements_of trusted6 (ruleset_lines config) ≡ networks6 config
  unfolding ruleset_lines
  elements_of-trusted6 =
      elements_of-both6 (is_empty config.trusted_networks) (networks4 config) (networks6 config)
        (banned_sets ++ (first_rules ++ (service_rules config ++ last_lines)))
        (keep_none is_ip6 config.trusted_networks) (elements_of-tail trusted6)

  -- No line before the chain is a rule or opens another one.
  module _ (inside : Text → Text → Bool) (banned : Text → Bool) (sets : SetName → List Text)
      (p : Packet) where
    at_input-both :
        (none_trusted : Bool) (v4 v6 : List Text) (rest : List Line)
        → at_input inside banned sets (both_sets none_trusted v4 v6 ++ rest) p
          ≡ at_input inside banned sets rest p
    at_input-both true v4 v6 rest = refl
    at_input-both false [] [] rest = refl
    at_input-both false [] (n ∷ v6) rest = refl
    at_input-both false (n ∷ v4) [] rest = refl
    at_input-both false (n ∷ v4) (m ∷ v6) rest = refl

    pub at_input-ruleset_lines :
        at_input inside banned sets (ruleset_lines config) p
        ≡ at_input inside banned sets (first_rules ++ (service_rules config ++ last_lines)) p
    unfolding ruleset_lines
    at_input-ruleset_lines =
        at_input-both (is_empty config.trusted_networks) (networks4 config) (networks6 config)
          (banned_sets ++ (first_rules ++ (service_rules config ++ last_lines)))
