-- ===== src/Firewall/Promise.antt =====
-- The services and networks that the ruleset is made of, against what the administrator was promised.
use opennas.Base.{
  String, ◌≡◌, refl, sym, ap, ◌∙◌, inl, inr, Bool, true, false, ◌&&◌, ◌||◌, not, List, [], ◌∷◌,
  arith, if◌then◌else◌, Bool-cases, ◌==◌, nat_eq, string_eq, list_eq, keep, any, Text, has_unit,
}
use opennas.Firewall.Networks.{tcp_port, FirewallService, firewall_services, FirewallConfig}
use opennas.Firewall.Rules.{is_ip6, is_enabled, enabled_services, networks4, networks6}
use opennas.Firewall.Packets.{Packet, goes_to, in_any, same_bool, to_service, is_trusted, is_served}

module _ {A : Type 0} where
  any-keep : (f g : A → Bool) (xs : List A) → any f (keep g xs) ≡ any (λ x. g x && f x) xs
  any-keep f g [] = refl
  any-keep f g (x ∷ xs) = elim (Bool-cases (g x)) [
    | inl hit ↦ rw hit (ap (λ b. f x || b) (any-keep f g xs))
    | inr miss ↦ rw miss (any-keep f g xs)
  ]

  any-or : (f g : A → Bool) (xs : List A) → any (λ x. f x || g x) xs ≡ (any f xs || any g xs)
  any-or f g [] = refl
  any-or f g (x ∷ xs) =
      let rest = any-or f g xs in rw rest (spread (f x) (g x) (any f xs) (any g xs))
    where
      spread : (a b c d : Bool) → ((a || b) || (c || d)) ≡ ((a || c) || (b || d))
      spread a b c d = ground arith

  any-and_last : (f : A → Bool) (b : Bool) (xs : List A) → any (λ x. f x && b) xs ≡ (any f xs && b)
  any-and_last f b [] = refl
  any-and_last f b (x ∷ xs) = let rest = any-and_last f b xs in rw rest (share (f x) (any f xs) b)
    where
      share : (a c d : Bool) → ((a && d) || (c && d)) ≡ ((a || c) && d)
      share a c d = ground arith

  any_never : (xs : List A) → any (λ x. false) xs ≡ false
  any_never [] = refl
  any_never (x ∷ xs) = any_never xs

by_family :
    (f : Text → Bool) (six : Bool) (networks : List Text)
    → (if six then any f (keep is_ip6 networks) else any f (keep (λ n. not (is_ip6 n)) networks))
      ≡ any (λ n. same_bool (has_unit 58 n) six && f n) networks
by_family f true networks = any-keep f is_ip6 networks
by_family f false networks = any-keep f (λ n. not (is_ip6 n)) networks

-- A network counts for the packets of its own family.
pub from_sets-is_trusted :
    (inside : Text → Text → Bool) (config : FirewallConfig) (p : Packet)
    → (if p.is_six then in_any inside (networks6 config) p else in_any inside (networks4 config) p)
      ≡ is_trusted inside config p
from_sets-is_trusted inside config p =
    by_family (λ n. inside n p.source) p.is_six config.trusted_networks

gather :
    (on a t o l : Bool) → (((on || a) && t) || (o || l)) ≡ (((on && t) || o) || ((a && t) || l))
gather on a t o l = ground arith

web_last : (a b x : Bool) → (((a || (b || false)) || false) || x) ≡ ((a || b) || x)
web_last a b x = ground arith

-- A service is asked for that is always on, or that is in the list.
module _ (allowed : List String) (t : FirewallService → Bool) where
  listed :
      (services : List FirewallService)
      → any
          (λ (s : FirewallService). (s.always_on || any (λ id. id == s.id) allowed) && t s)
          services
        ≡ (any (λ (s : FirewallService). s.always_on && t s) services
            || any (λ id. any (λ (s : FirewallService). id == s.id && t s) services) allowed)
  listed [] = sym (any_never allowed)
  listed (s ∷ services) =
      let named : String → Bool = (λ id. id == s.id) in
      let others : String → Bool =
        (λ id. any (λ (z : FirewallService). id == z.id && t z) services) in
      let on : Bool = any (λ (z : FirewallService). z.always_on && t z) services in
      ap (λ b. ((s.always_on || any named allowed) && t s) || b) (listed services)
      ∙ gather s.always_on (any named allowed) (t s) on (any others allowed)
      ∙ ap (λ b. (s.always_on && t s || on) || b)
          (sym (
            any-or (λ id. id == s.id && t s) others allowed
            ∙ ap (λ b. b || any others allowed) (any-and_last named (t s) allowed)))

pub from_services-is_served :
    (config : FirewallConfig) (p : Packet)
    → any
        (λ (s : FirewallService). any (λ q. goes_to q p.payload) s.ports)
        (enabled_services config)
      ≡ is_served config p
from_services-is_served config p =
    let asked : FirewallService → Bool = (λ s. any (λ q. goes_to q p.payload) s.ports) in
    any-keep asked (is_enabled config) firewall_services
    ∙ listed config.allowed asked firewall_services
    ∙ web_last (goes_to (tcp_port 80) p.payload) (goes_to (tcp_port 443) p.payload)
        (any (λ id. to_service id p.payload) config.allowed)
