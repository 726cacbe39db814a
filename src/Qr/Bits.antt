-- ===== src/Qr/Bits.antt =====
-- What a number of bits says, read with the highest first, and that `push` and `to_bytes` write it.
use native.Mathlib.Nat.{pow-succ', div-div-eq-div-mul}
use opennas.Base.{
  ℕ, zero, suc, ◌+◌, ◌*◌, ◌/◌, ◌%◌, ◌^◌, ◌≤◌, ◌≡◌, refl, sym, ap, ◌∙◌, List, [], ◌∷◌, arith, nat_eq,
  string_eq, list_eq, length, length-append, All, All-append,
}
use opennas.Qr.Data.{push, push_bytes, byte_of, to_bytes}

unfoldable pub value_from : ℕ → List ℕ → ℕ
value_from n [] = n
value_from n (b ∷ bits) = value_from (2 * n + b) bits

abbrev pub AreBits : List ℕ → Type 0
AreBits bits = All (λ b. b ≤ 1) bits

halved : (v n : ℕ) → v / 2 ^ suc n ≡ v / 2 ^ n / 2
halved v n = ap (λ k. v / k) (pow-succ' 2 n ∙ double (2 ^ n)) ∙ sym (div-div-eq-div-mul v (2 ^ n) 2)
  where
    double : (k : ℕ) → 2 * k ≡ k * 2
    double k = omega arith

pub value_from-push : (v n : ℕ) → value_from (v / 2 ^ n) (push v n) ≡ v
unfolding value_from push
value_from-push v zero = omega arith
value_from-push v (suc n) =
    let e = halved v n in
    let step : 2 * (v / 2 ^ suc n) + v / 2 ^ n % 2 ≡ v / 2 ^ n = rw e (omega arith) in
    ap (λ k. value_from k (push v n)) step ∙ value_from-push v n

value_from-top : (n : ℕ) (bits : List ℕ) → AreBits bits → value_from n bits / 2 ^ length bits ≡ n
unfolding value_from
value_from-top n [] h = omega arith
value_from-top n (b ∷ bits) h =
    halved (value_from (2 * n + b) bits) (length bits)
    ∙ ap (λ k. k / 2) (value_from-top (2 * n + b) bits h.1)
    ∙ omega (arith, h.0)

pub push-value_from :
    (n : ℕ) (bits : List ℕ) → AreBits bits → push (value_from n bits) (length bits) ≡ bits
unfolding push value_from
push-value_from n [] h = refl
push-value_from n (b ∷ bits) h =
    let top = value_from-top (2 * n + b) bits h.1 in
    let first : value_from (2 * n + b) bits / 2 ^ length bits % 2 ≡ b =
      rw top (omega (arith, h.0)) in
    rw first (ap (λ k. b ∷ k) (push-value_from (2 * n + b) bits h.1))

pub push-AreBits : (v n : ℕ) → AreBits (push v n)
unfolding push
push-AreBits v zero = tt
push-AreBits v (suc n) = (omega arith, push-AreBits v n)

pub length-push : (v n : ℕ) → length (push v n) ≡ n
unfolding push
length-push v zero = refl
length-push v (suc n) = ap suc (length-push v n)

pub push_bytes-AreBits : (bytes : List ℕ) → AreBits (push_bytes bytes)
unfolding push_bytes
push_bytes-AreBits [] = tt
push_bytes-AreBits (b ∷ bytes) =
    All-append _ (push b 8) (push_bytes bytes) (push-AreBits b 8) (push_bytes-AreBits bytes)

pub length-push_bytes : (bytes : List ℕ) → length (push_bytes bytes) ≡ 8 * length bytes
unfolding push_bytes
length-push_bytes [] = refl
length-push_bytes (b ∷ bytes) =
    length-append (push b 8) (push_bytes bytes)
    ∙ (let e = length-push b 8 in let f = length-push_bytes bytes in rw (e, f) (omega arith))

push-byte_of :
    (a b c d e f g h : ℕ)
    → AreBits (a ∷ b ∷ c ∷ d ∷ e ∷ f ∷ g ∷ h ∷ [])
    → push (byte_of a b c d e f g h) 8 ≡ a ∷ b ∷ c ∷ d ∷ e ∷ f ∷ g ∷ h ∷ []
unfolding value_from
push-byte_of a b c d e f g h bits =
    let horner : byte_of a b c d e f g h ≡ value_from 0 (a ∷ b ∷ c ∷ d ∷ e ∷ f ∷ g ∷ h ∷ []) =
      omega arith in
    ap (λ k. push k 8) horner ∙ push-value_from 0 (a ∷ b ∷ c ∷ d ∷ e ∷ f ∷ g ∷ h ∷ []) bits

pub push_bytes-to_bytes :
    (k : ℕ) (bits : List ℕ)
    → length bits ≡ 8 * k
    → AreBits bits
    → (push_bytes (to_bytes bits) ≡ bits) × (length (to_bytes bits) ≡ k)
unfolding to_bytes push_bytes
push_bytes-to_bytes zero [] e h = (refl, refl)
push_bytes-to_bytes (suc k) [] e h = absurd (omega (arith, e))
push_bytes-to_bytes k (a ∷ []) e h = absurd (omega (arith, e))
push_bytes-to_bytes k (a ∷ b ∷ []) e h = absurd (omega (arith, e))
push_bytes-to_bytes k (a ∷ b ∷ c ∷ []) e h = absurd (omega (arith, e))
push_bytes-to_bytes k (a ∷ b ∷ c ∷ d ∷ []) e h = absurd (omega (arith, e))
push_bytes-to_bytes k (a ∷ b ∷ c ∷ d ∷ x ∷ []) e h = absurd (omega (arith, e))
push_bytes-to_bytes k (a ∷ b ∷ c ∷ d ∷ x ∷ y ∷ []) e h = absurd (omega (arith, e))
push_bytes-to_bytes k (a ∷ b ∷ c ∷ d ∷ x ∷ y ∷ z ∷ []) e h = absurd (omega (arith, e))
push_bytes-to_bytes zero (a ∷ b ∷ c ∷ d ∷ x ∷ y ∷ z ∷ w ∷ bits) e h = absurd (omega (arith, e))
push_bytes-to_bytes (suc k) (a ∷ b ∷ c ∷ d ∷ x ∷ y ∷ z ∷ w ∷ bits) e
      (ha, (hb, (hc, (hd, (hx, (hy, (hz, (hw, h)))))))) =
    let rest = push_bytes-to_bytes k bits (omega (arith, e)) h in
    let first = push-byte_of a b c d x y z w (ha, (hb, (hc, (hd, (hx, (hy, (hz, (hw, tt)))))))) in
    (rw (first, rest.0) refl, ap suc rest.1)
