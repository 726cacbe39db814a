-- ===== src/Firewall/Networks.antt =====
-- apps/api/src/system/firewall.ts: FIREWALL_SERVICES, isValidCidr and getFirewallConfig.
use opennas.Base.{
  ℕ, suc, String, Bool, true, false, ◌&&◌, ◌||◌, not, Option, none, some, List, [], ◌∷◌,
  if◌then◌else◌, leb, ltb, ◌==◌, nat_eq, string_eq, any, Text, is_empty, split, has_unit, length,
}
use opennas.Files.Resolve.{trim}
use opennas.IpBans.Addresses.{all_digits, digits_value}

pub data Proto : Type 0 where
  tcp udp : Proto

pub record ServicePort : Type 0 where
  pub proto : Proto
  pub port : ℕ

pub record FirewallService : Type 0 where
  pub id : String
  pub name : String
  pub ports : List ServicePort
  pub always_on : Bool

abbrev pub tcp_port : ℕ → ServicePort
tcp_port n = record { proto = tcp; port = n }

abbrev pub udp_port : ℕ → ServicePort
udp_port n = record { proto = udp; port = n }

abbrev pub firewall_services : List FirewallService
firewall_services =
    record {
      id = "web";
      name = "Web interface";
      ports = tcp_port 80 ∷ tcp_port 443 ∷ [];
      always_on = true;
    }
    ∷ record { id = "ssh"; name = "SSH"; ports = tcp_port 22 ∷ []; always_on = false }
    ∷ record {
      id = "smb";
      name = "SMB / CIFS";
      ports = tcp_port 445 ∷ tcp_port 139 ∷ [];
      always_on = false;
    }
    ∷ record {
      id = "nfs";
      name = "NFS";
      ports = tcp_port 2049 ∷ udp_port 2049 ∷ tcp_port 111 ∷ udp_port 111 ∷ [];
      always_on = false;
    }
    ∷ record { id = "afp"; name = "AFP"; ports = tcp_port 548 ∷ []; always_on = false }
    ∷ record {
      id = "discovery";
      name = "Network discovery";
      ports = udp_port 5353 ∷ udp_port 3702 ∷ tcp_port 5357 ∷ [];
      always_on = false;
    }
    ∷ []

pub record FirewallConfig : Type 0 where
  pub enabled : Bool
  pub allowed : List String
  pub trusted_networks : List Text
  pub restrict_to_trusted : Bool

abbrev pub default_firewall : FirewallConfig
default_firewall = record {
  enabled = false;
  allowed = "web" ∷ "ssh" ∷ "smb" ∷ "nfs" ∷ "afp" ∷ "discovery" ∷ [];
  trusted_networks = [];
  restrict_to_trusted = false;
}

-- `Number(o) > 255 || (o.length > 1 && o.startsWith("0"))`
abbrev pub leads_with_zero : Text → Bool
leads_with_zero [] = false
leads_with_zero (c ∷ []) = false
leads_with_zero (c ∷ d ∷ s) = c == 48

abbrev pub is_bad_octet : Text → Bool
is_bad_octet o = ltb 255 (digits_value 0 o) || leads_with_zero o

-- /^\d{1,k}$/
abbrev pub has_digits : ℕ → Text → Bool
has_digits k s = all_digits s && leb 1 (length s) && leb (length s) k

abbrev pub is_dotted : Text → Bool
is_dotted addr =
    length (split 46 addr) == 4 && not (any (λ o. not (has_digits 3 o)) (split 46 addr))

abbrev pub is_prefix : ℕ → ℕ → Option Text → Bool
is_prefix k most none = true
is_prefix k most (some prefix) = has_digits k prefix && leb (digits_value 0 prefix) most

abbrev pub is_hex_or_colon : ℕ → Bool
is_hex_or_colon c =
    leb 48 c && leb c 57 || (leb 97 c && leb c 102 || (leb 65 c && leb c 70 || c == 58))

abbrev pub all_hex : Text → Bool
all_hex [] = true
all_hex (c ∷ s) = is_hex_or_colon c && all_hex s

-- The number of matches of /::/g.
abbrev pub count_doubles : Text → ℕ
count_doubles [] = 0
count_doubles (c ∷ []) = 0
count_doubles (c ∷ d ∷ s) =
    let after = count_doubles s in
    let next = count_doubles (d ∷ s) in if c == 58 && d == 58 then suc after else next

abbrev pub is_address : Text → Option Text → Bool
is_address addr prefix =
    if is_empty addr
    then false
    else if is_dotted addr
    then not (any is_bad_octet (split 46 addr)) && is_prefix 2 32 prefix
    else not (is_empty addr)
      && all_hex addr
      && leb (count_doubles addr) 1
      && has_unit 58 addr
      && is_prefix 3 128 prefix

-- `const [addr, prefix, ...rest] = text.split("/")`
abbrev pub is_cidr_parts : List Text → Bool
is_cidr_parts [] = false
is_cidr_parts (addr ∷ []) = is_address addr none
is_cidr_parts (addr ∷ prefix ∷ []) = is_address addr (some prefix)
is_cidr_parts (addr ∷ prefix ∷ more ∷ rest) = false

unfoldable pub is_valid_cidr : Text → Bool
is_valid_cidr value = is_cidr_parts (split 47 (trim value))

-- What `JSON.parse` returns, as far as the code looks; in the lists `none` is a value that is no text.
pub record ParsedFirewall : Type 0 where
  pub enabled : Bool
  pub allowed : Option (List (Option String))
  pub trusted_networks : Option (List (Option Text))
  pub restrict_to_trusted : Bool

abbrev pub is_service_id : String → Bool
is_service_id id = any (λ (s : FirewallService). s.id == id) firewall_services

abbrev pub known_ids : List (Option String) → List String
known_ids [] = []
known_ids (none ∷ ids) = known_ids ids
known_ids (some id ∷ ids) = if is_service_id id then id ∷ known_ids ids else known_ids ids

abbrev pub allowed_of : Option (List (Option String)) → List String
allowed_of none = default_firewall.allowed
allowed_of (some ids) = known_ids ids

-- `none` is the error of `trim` on a value that is no text.
abbrev pub valid_networks : List (Option Text) → Option (List Text)
valid_networks [] = some []
valid_networks (none ∷ ns) = none
valid_networks (some n ∷ ns) = elim (valid_networks ns) [
  | none ↦ none
  | some rest ↦ some (if is_valid_cidr n then n ∷ rest else rest)
]

abbrev pub trusted_networks_of : Option (List (Option Text)) → Option (List Text)
trusted_networks_of none = some []
trusted_networks_of (some ns) = valid_networks ns

abbrev pub with_networks : ParsedFirewall → Option (List Text) → FirewallConfig
with_networks p none = default_firewall
with_networks p (some networks) = record {
  enabled = p.enabled;
  allowed = allowed_of p.allowed;
  trusted_networks = networks;
  restrict_to_trusted = p.restrict_to_trusted;
}

-- `none` is a text that is not JSON.
unfoldable pub get_firewall_config : Option ParsedFirewall → FirewallConfig
get_firewall_config none = default_firewall
get_firewall_config (some p) = with_networks p (trusted_networks_of p.trusted_networks)
