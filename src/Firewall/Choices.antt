-- ===== src/Firewall/Choices.antt =====
-- Nested tests as conjunctions and disjunctions, for the rules of apps/api/src/system/firewall.ts.
use opennas.Base.{
  ◌≡◌, refl, Bool, true, false, ◌&&◌, ◌||◌, not, List, [], ◌∷◌, arith, if◌then◌else◌, nat_eq,
  string_eq, list_eq, keep, any, is_empty, clash,
}

pub or_assoc : (a b c : Bool) → (a || (b || c)) ≡ ((a || b) || c)
or_assoc true b c = refl
or_assoc false b c = refl

pub or_false : (b : Bool) → (b || false) ≡ b
or_false b = ground arith

pub pick_both :
    (six a b t r : Bool)
    → (if not six && a && t then true else (if six && b && t then true else r))
      ≡ ((if six then b else a) && t || r)
pick_both six a b t r = ground arith

pub pick_first :
    (six a b t r : Bool)
    → b ≡ false
    → (if not six && a && t then true else r) ≡ ((if six then b else a) && t || r)
pick_first six a b t r h = ground arith

pub pick_second :
    (six a b t r : Bool)
    → a ≡ false
    → (if six && b && t then true else r) ≡ ((if six then b else a) && t || r)
pick_second six a b t r h = ground arith

pub pick_neither :
    (six a b t r : Bool) → a ≡ false → b ≡ false → r ≡ ((if six then b else a) && t || r)
pick_neither six a b t r h k = ground arith

pub accept_four :
    (x y z w v : Bool)
    → (if x then true else (if y then true else (if z then true else (if w then true else v))))
      ≡ ((x || y) || ((z || w) || v))
accept_four true y z w v = refl
accept_four false true z w v = refl
accept_four false false true w v = refl
accept_four false false false true v = refl
accept_four false false false false v = refl

pub drop_both :
    (six b v : Bool)
    → (if not six && b then false else (if six && b then false else v)) ≡ (if b then false else v)
drop_both six b v = ground arith

pub lone_both :
    (six a b r : Bool)
    → (if not six && a then true else (if six && b then true else r))
      ≡ ((if six then b else a) || r)
lone_both six a b r = ground arith

pub lone_first :
    (six a b r : Bool)
    → b ≡ false
    → (if not six && a then true else r) ≡ ((if six then b else a) || r)
lone_first six a b r h = ground arith

pub lone_second :
    (six a b r : Bool) → a ≡ false → (if six && b then true else r) ≡ ((if six then b else a) || r)
lone_second six a b r h = ground arith

pub neither_way :
    {a b : Bool} → (six : Bool) → a ≡ false → b ≡ false → (if six then b else a) ≡ false
neither_way six h k = ground arith

pub keep_empty :
    {A : Type 0} → (f : A → Bool) (xs : List A) → is_empty xs ≡ true → is_empty (keep f xs) ≡ true
keep_empty f [] h = refl
keep_empty f (x ∷ xs) h = absurd (clash refl h)

pub any-empty : {A : Type 0} → (f : A → Bool) (xs : List A) → is_empty xs ≡ true → any f xs ≡ false
any-empty f [] h = refl
any-empty f (x ∷ xs) h = absurd (clash refl h)
