-- ===== src/IpBans/Addresses.antt =====
-- apps/api/src/db/ip-bans.ts: isBannable and addressInCidr.
use opennas.Base.{
  ℕ, ◌+◌, ◌-◌, ◌*◌, ◌%◌, ◌^◌, min, Bool, true, false, ◌&&◌, ◌||◌, not, Option, none, some, List, [],
  ◌∷◌, if◌then◌else◌, leb, ◌==◌, nat_eq, list_eq, any, Text, codes, is_empty, split, starts_with,
  has_unit, length,
}
use opennas.Files.Resolve.{trim}
use opennas.IpBans.{clean}

abbrev pub is_digit_unit : ℕ → Bool
is_digit_unit c = leb 48 c && leb c 57

abbrev pub all_digits : Text → Bool
all_digits [] = true
all_digits (c ∷ s) = is_digit_unit c && all_digits s

abbrev pub digits_value : ℕ → Text → ℕ
digits_value n [] = n
digits_value n (c ∷ s) = digits_value (n * 10 + (c - 48)) s

abbrev pub unsigned : Text → Option ℕ
unsigned s = if all_digits s && not (is_empty s) then some (digits_value 0 s) else none

-- `Math.max(0, Number(s))` of a finite number, `none` for one that is not.
abbrev pub number_of : Text → Option ℕ
number_of [] = some 0
number_of (c ∷ s) =
    if c == 43
    then unsigned s
    else if c == 45
    then (elim (unsigned s) [ none ↦ none | some n ↦ some 0 ])
    else unsigned (c ∷ s)

-- /^\d{1,3}(\.\d{1,3}){3}$/
abbrev pub is_octet : Text → Bool
is_octet s = all_digits s && leb 1 (length s) && leb (length s) 3

abbrev pub is_v4 : Text → Bool
is_v4 s = let parts = split 46 s in length parts == 4 && not (any (λ p. not (is_octet p)) parts)

abbrev pub octets_value : ℕ → List Text → ℕ
octets_value acc [] = acc
octets_value acc (o ∷ os) = octets_value ((acc * 256 + digits_value 0 o) % 2 ^ 32) os

abbrev pub to_int : Text → ℕ
to_int ip = octets_value 0 (split 46 ip)

-- The number without its low bits: `x & mask`.
abbrev pub masked : ℕ → ℕ → ℕ
masked prefix x = x - x % 2 ^ (32 - prefix)

abbrev pub prefix_of : Option Text → ℕ
prefix_of none = 32
prefix_of (some raw) = elim (number_of (trim raw)) [ none ↦ 32 | some bits ↦ min 32 bits ]

-- `net.split("::")[0]`
abbrev pub head_of : Text → Text
head_of [] = []
head_of (c ∷ s) =
    let rest = head_of s in if starts_with (c ∷ s) (58 ∷ 58 ∷ []) then [] else c ∷ rest

abbrev pub in_net : Text → Text → Option Text → Bool
in_net address net raw =
    if is_empty net
    then false
    else if is_v4 address && is_v4 net
    then prefix_of raw == 0
      || masked (prefix_of raw) (to_int address) == masked (prefix_of raw) (to_int net)
    else if has_unit 58 address && has_unit 58 net
    then is_empty (head_of net) || starts_with address (head_of net)
    else false

-- `const [net, bitsRaw] = cidr.split("/")`
abbrev pub in_parts : Text → List Text → Bool
in_parts address [] = false
in_parts address (net ∷ []) = in_net address net none
in_parts address (net ∷ raw ∷ more) = in_net address net (some raw)

unfoldable pub address_in_cidr : Text → Text → Bool
address_in_cidr address cidr = in_parts address (split 47 cidr)

unfoldable pub is_bannable : (Text → Text) → Text → List Text → Bool
unfolding address_in_cidr
is_bannable lower address trusted =
    let a = clean lower address in
    if is_empty a
    then false
    else if a == codes "127.0.0.1" || a == codes "::1" || starts_with a (codes "127.")
    then false
    else if starts_with a (codes "::ffff:127.")
    then false
    else not (any (λ n. address_in_cidr a n) trusted)
