-- ===== src/Firewall/Safe.antt =====
-- What a network of the configuration can put into the ruleset.
use opennas.Base.{
  ℕ, ◌≡◌, refl, ap, ◌∙◌, inl, inr, Bool, true, false, ◌&&◌, ◌||◌, not, Option, none, some, List, [],
  ◌∷◌, ◌++◌, arith, if◌then◌else◌, nat_beq_iff, Bool-cases, ◌==◌, nat_eq, string_eq, list_eq, any,
  All, All-append, All-keep, Text, codes, is_empty, split, clash,
}
use opennas.Base.{push_head}
use opennas.Files.Resolve.{is_space, trim_start, trim_end, trim}
use opennas.Firewall.Rules.{
  trusted4, trusted6, is_ip6, networks4, networks6, join_comma, ruleset_lines,
}
use opennas.Firewall.Packets.{elements_of}
use opennas.Firewall.Sets.{elements_of-trusted4, elements_of-trusted6}
use opennas.IpBans.Addresses.{all_digits}
use opennas.Firewall.Networks.{
  has_digits, is_dotted, all_hex, is_hex_or_colon, is_address, is_cidr_parts, is_valid_cidr,
  ParsedFirewall, valid_networks, trusted_networks_of, with_networks, get_firewall_config,
}

abbrev pub is_address_unit : ℕ → Bool
is_address_unit c = is_hex_or_colon c || (c == 46 || c == 47)

-- Hexadecimal digits, colons, dots and slashes.
abbrev pub IsSafe : Text → Type 0
IsSafe s = All (λ c. is_address_unit c ≡ true) s

push_head-All :
    (P : ℕ → Type 0) (x : ℕ) (rest : List Text)
    → All (All P) (push_head x rest)
    → P x × All (All P) rest
push_head-All P x [] h = (h.0.0, tt)
push_head-All P x (w ∷ ws) h = (h.0.0, (h.0.1, h.1))

split_step-All :
    (P : ℕ → Type 0) (found : Bool) (x : ℕ) (rest : List Text)
    → (found ≡ true → P x)
    → All (All P) (if found then [] ∷ rest else push_head x rest)
    → P x × All (All P) rest
split_step-All P true x rest px h = (px refl, h.1)
split_step-All P false x rest px h = push_head-All P x rest h

split-All : (P : ℕ → Type 0) (c : ℕ) → P c → (s : Text) → All (All P) (split c s) → All P s
unfolding split
split-All P c pc [] h = tt
split-All P c pc (x ∷ s) h =
    let step = split_step-All P (x == c) x (split c s) (λ hit. rw ((nat_beq_iff x c).0 hit) pc) h in
    (step.0, split-All P c pc s step.1)

all_digits-IsSafe : (s : Text) → all_digits s ≡ true → IsSafe s
all_digits-IsSafe [] h = tt
all_digits-IsSafe (c ∷ s) h = (ground arith, all_digits-IsSafe s (ground arith))

all_hex-IsSafe : (s : Text) → all_hex s ≡ true → IsSafe s
all_hex-IsSafe [] h = tt
all_hex-IsSafe (c ∷ s) h = (ground arith, all_hex-IsSafe s (ground arith))

parts-AreSafe :
    (parts : List Text) → any (λ o. not (has_digits 3 o)) parts ≡ false → All IsSafe parts
parts-AreSafe [] h = tt
parts-AreSafe (o ∷ parts) h =
    (all_digits-IsSafe o (ground arith), parts-AreSafe parts (ground arith))

is_dotted-IsSafe : (addr : Text) → is_dotted addr ≡ true → IsSafe addr
is_dotted-IsSafe addr h = split-All _ 46 refl addr (parts-AreSafe (split 46 addr) (ground arith))

is_address-IsSafe :
    (addr : Text) (prefix : Option Text) → is_address addr prefix ≡ true → IsSafe addr
is_address-IsSafe addr prefix h = elim (Bool-cases (is_dotted addr)) [
  | inl hit ↦ is_dotted-IsSafe addr hit
  | inr miss ↦ all_hex-IsSafe addr (ground arith)
]

is_address-prefix :
    (addr prefix : Text) → is_address addr (some prefix) ≡ true → all_digits prefix ≡ true
is_address-prefix addr prefix h = ground arith

is_cidr_parts-AreSafe : (parts : List Text) → is_cidr_parts parts ≡ true → All IsSafe parts
is_cidr_parts-AreSafe [] h = tt
is_cidr_parts-AreSafe (addr ∷ []) h = (is_address-IsSafe addr none h, tt)
is_cidr_parts-AreSafe (addr ∷ prefix ∷ []) h = (
  is_address-IsSafe addr (some prefix) h,
  (all_digits-IsSafe prefix (is_address-prefix addr prefix h), tt),
)
is_cidr_parts-AreSafe (addr ∷ prefix ∷ more ∷ rest) h = absurd (clash refl h)

is_valid_cidr-IsSafe : (value : Text) → is_valid_cidr value ≡ true → IsSafe (trim value)
unfolding is_valid_cidr
is_valid_cidr-IsSafe value h =
    split-All _ 47 refl (trim value) (is_cidr_parts-AreSafe (split 47 (trim value)) h)

abbrev AreValid : Option (List Text) → Type 0
AreValid none = Unit
AreValid (some networks) = All (λ n. is_valid_cidr n ≡ true) networks

keep_valid :
    (valid : Bool) (n : Text) (rest : List Text)
    → is_valid_cidr n ≡ valid
    → AreValid (some rest)
    → AreValid (some (if valid then n ∷ rest else rest))
keep_valid true n rest e h = (e, h)
keep_valid false n rest e h = h

valid_networks_step :
    (n : Text) (r : Option (List Text))
    → AreValid r
    → AreValid
        (elim r [ none ↦ none | some rest ↦ some (if is_valid_cidr n then n ∷ rest else rest) ])
valid_networks_step n none h = tt
valid_networks_step n (some rest) h = keep_valid (is_valid_cidr n) n rest refl h

valid_networks-AreValid : (ns : List (Option Text)) → AreValid (valid_networks ns)
valid_networks-AreValid [] = tt
valid_networks-AreValid (none ∷ ns) = tt
valid_networks-AreValid (some n ∷ ns) =
    valid_networks_step n (valid_networks ns) (valid_networks-AreValid ns)

with_networks-AreValid :
    (p : ParsedFirewall) (r : Option (List Text))
    → AreValid r
    → AreValid (some (with_networks p r).trusted_networks)
with_networks-AreValid p none h = tt
with_networks-AreValid p (some networks) h = h

trusted_networks_of-AreValid :
    (ns : Option (List (Option Text))) → AreValid (trusted_networks_of ns)
trusted_networks_of-AreValid none = tt
trusted_networks_of-AreValid (some ns) = valid_networks-AreValid ns

-- What `trim` takes away is white space at the two ends.
abbrev pub AreSpaces : Text → Type 0
AreSpaces s = All (λ c. is_space c ≡ true) s

trim_start-split : (s : Text) → (before : Text) × (s ≡ before ++ trim_start s) × AreSpaces before
unfolding trim_start
trim_start-split [] = ([], refl, tt)
trim_start-split (c ∷ s) = elim (Bool-cases (is_space c)) [
  | inl hit ↦
      let (before, e, spaces) = trim_start-split s in
      (c ∷ before, rw hit (ap (λ z. c ∷ z) e), (hit, spaces))
  | inr miss ↦ ([], rw miss refl, tt)
]

trim_end_step :
    (c : ℕ) (s rest after : Text)
    → s ≡ rest ++ after
    → AreSpaces after
    → (left : Text) × (c ∷ s ≡ (if is_space c && is_empty rest then [] else c ∷ rest) ++ left)
      × AreSpaces left
trim_end_step c s [] after e spaces = elim (Bool-cases (is_space c)) [
  | inl hit ↦ (c ∷ after, rw hit (ap (λ z. c ∷ z) e), (hit, spaces))
  | inr miss ↦ (after, rw miss (ap (λ z. c ∷ z) e), spaces)
]
trim_end_step c s (x ∷ rest) after e spaces = elim (Bool-cases (is_space c)) [
  | inl hit ↦ (after, rw hit (ap (λ z. c ∷ z) e), spaces)
  | inr miss ↦ (after, rw miss (ap (λ z. c ∷ z) e), spaces)
]

trim_end-split : (s : Text) → (after : Text) × (s ≡ trim_end s ++ after) × AreSpaces after
unfolding trim_end
trim_end-split [] = ([], refl, tt)
trim_end-split (c ∷ s) =
    let (after, e, spaces) = trim_end-split s in trim_end_step c s (trim_end s) after e spaces

-- Hexadecimal digits, colons, dots and slashes, with white space before and after.
abbrev pub IsPadded : Text → Type 0
IsPadded n =
    (before : Text) × (core : Text) × (after : Text) × (n ≡ before ++ (core ++ after))
    × AreSpaces before
    × IsSafe core
    × AreSpaces after

is_valid_cidr-IsPadded : (n : Text) → is_valid_cidr n ≡ true → IsPadded n
is_valid_cidr-IsPadded n h =
    let (before, e, front) = trim_start-split n in
    let (after, f, back) = trim_end-split (trim_start n) in
    (
      before,
      trim_end (trim_start n),
      after,
      e ∙ ap (λ z. before ++ z) f,
      front,
      unfold trim in is_valid_cidr-IsSafe n h,
      back,
    )

abbrev pub is_element_unit : ℕ → Bool
is_element_unit c = is_address_unit c || (is_space c || c == 44)

abbrev pub AreElementUnits : Text → Type 0
AreElementUnits s = All (λ c. is_element_unit c ≡ true) s

IsSafe-AreElementUnits : (s : Text) → IsSafe s → AreElementUnits s
IsSafe-AreElementUnits [] h = tt
IsSafe-AreElementUnits (c ∷ s) h =
    (ap (λ b. b || (is_space c || c == 44)) h.0, IsSafe-AreElementUnits s h.1)

middle : {b : Bool} → (a c : Bool) → b ≡ true → (a || (b || c)) ≡ true
middle a c h = ground arith

AreSpaces-AreElementUnits : (s : Text) → AreSpaces s → AreElementUnits s
AreSpaces-AreElementUnits [] h = tt
AreSpaces-AreElementUnits (c ∷ s) h =
    (middle (is_address_unit c) (c == 44) h.0, AreSpaces-AreElementUnits s h.1)

IsPadded-AreElementUnits : (n : Text) → IsPadded n → AreElementUnits n
IsPadded-AreElementUnits n (before, core, after, e, front, safe, back) = rw e (
    All-append _ before (core ++ after) (AreSpaces-AreElementUnits before front) (
      All-append _ core after (IsSafe-AreElementUnits core safe)
        (AreSpaces-AreElementUnits after back)))

join_comma-AreElementUnits : (ns : List Text) → All IsPadded ns → AreElementUnits (join_comma ns)
join_comma-AreElementUnits [] h = tt
join_comma-AreElementUnits (n ∷ []) h = IsPadded-AreElementUnits n h.0
join_comma-AreElementUnits (n ∷ m ∷ ns) h =
    All-append _ n (codes ", " ++ join_comma (m ∷ ns)) (IsPadded-AreElementUnits n h.0)
      (refl, (refl, join_comma-AreElementUnits (m ∷ ns) h.1))

valid-ArePadded : (ns : List Text) → AreValid (some ns) → All IsPadded ns
valid-ArePadded [] h = tt
valid-ArePadded (n ∷ ns) h = (is_valid_cidr-IsPadded n h.0, valid-ArePadded ns h.1)

get_firewall_config-ArePadded :
    (parsed : Option ParsedFirewall) → All IsPadded (get_firewall_config parsed).trusted_networks
unfolding get_firewall_config
get_firewall_config-ArePadded none = tt
get_firewall_config-ArePadded (some p) =
    valid-ArePadded (with_networks p (trusted_networks_of p.trusted_networks)).trusted_networks (
      with_networks-AreValid p (trusted_networks_of p.trusted_networks)
        (trusted_networks_of-AreValid p.trusted_networks))

-- Whatever the setting holds, a trusted network of the configuration is made of hexadecimal digits, colons, dots and
-- slashes, with white space at most before and after these; so the texts that the ruleset has between the braces of
-- its two sets of trusted networks are made of these units, white space and commas.
pub get_firewall_config-AreSafe :
    (parsed : Option ParsedFirewall)
    → let config = get_firewall_config parsed in
      All IsPadded config.trusted_networks
      × AreElementUnits (join_comma (elements_of trusted4 (ruleset_lines config)))
      × AreElementUnits (join_comma (elements_of trusted6 (ruleset_lines config)))
get_firewall_config-AreSafe parsed =
    let config = get_firewall_config parsed in
    let padded = get_firewall_config-ArePadded parsed in
    (
      padded,
      rw (elements_of-trusted4 config) (
          join_comma-AreElementUnits (networks4 config)
            (All-keep _ (λ n. not (is_ip6 n)) config.trusted_networks padded)),
      rw (elements_of-trusted6 config) (
          join_comma-AreElementUnits (networks6 config)
            (All-keep _ is_ip6 config.trusted_networks padded)),
    )
