-- ===== src/Windows/Order.antt =====
-- The names and levels of the windows: what the operations on other fields leave alone.
use mathlib.Core.Path.{subst}
use text.Mathlib.TextEquality.{eq_iff}
use opennas.Base.{
  ℕ, ◌+◌, ◌≤◌, ◌<◌, String, ◌≡◌, refl, ap, ◌∙◌, inl, inr, Bool, true, false, not, List, [], ◌∷◌,
  ◌++◌, arith, if◌then◌else◌, Bool-cases, ◌==◌, nat_eq, string_eq, list_eq, keep, All, All-append,
  All-keep, All-map, count, count-append, count-keep, count-none,
}
use opennas.Windows.Store.{WindowInstance, change, raised}

pub record Key : Type 0 where
  pub id : String
  pub app : String
  pub level : ℕ

abbrev pub key_of : WindowInstance → Key
key_of w = record { id = w.id; app = w.app.id; level = w.z_index }

abbrev pub keys : List WindowInstance → List Key
keys [] = []
keys (w ∷ ws) = key_of w ∷ keys ws

abbrev pub named : String → Key → Bool
named id k = k.id == id

abbrev pub of_app : String → Key → Bool
of_app app k = k.app == app

abbrev pub at_level : ℕ → Key → Bool
at_level z k = k.level == z

-- No level lies above the last one given, and ids, apps and levels occur once.
pub record IsOrdered (ks : List Key) (last : ℕ) : Type 0 where
  pub bounded : All (λ k. k.level ≤ last) ks
  pub one_id : (id : String) → count (named id) ks ≤ 1
  pub one_app : (app : String) → count (of_app app) ks ≤ 1
  pub one_level : (z : ℕ) → count (at_level z) ks ≤ 1

-- A change of other fields.
pub change-keys :
    (id : String) (f : WindowInstance → WindowInstance) (ws : List WindowInstance)
    → ((w : WindowInstance) → key_of (f w) ≡ key_of w)
    → keys (change id f ws) ≡ keys ws
unfolding change
change-keys id f [] h = refl
change-keys id f (w ∷ ws) h = elim (Bool-cases (w.id == id)) [
  | inl here ↦
      rw here
        (ap (λ k. k ∷ keys (change id f ws)) (h w) ∙ ap (λ l. key_of w ∷ l) (change-keys id f ws h))
  | inr other ↦ rw other (ap (λ l. key_of w ∷ l) (change-keys id f ws h))
]

abbrev pub lift_key : ℕ → Key → Key
lift_key z k = record { id = k.id; app = k.app; level = z }

unfoldable pub lift_keys : String → ℕ → List Key → List Key
lift_keys id z [] = []
lift_keys id z (k ∷ ks) = (if k.id == id then lift_key z k else k) ∷ lift_keys id z ks

pub raise-keys :
    (id : String) (z : ℕ) (ws : List WindowInstance)
    → keys (change id (raised z) ws) ≡ lift_keys id z (keys ws)
unfolding change lift_keys
raise-keys id z [] = refl
raise-keys id z (w ∷ ws) = elim (Bool-cases (w.id == id)) [
  | inl here ↦ rw (here, raise-keys id z ws)
  | inr other ↦ rw (other, raise-keys id z ws)
]

pub keep-keys :
    (id : String) (ws : List WindowInstance)
    → keys (keep (λ w. not (w.id == id)) ws) ≡ keep (λ k. not (named id k)) (keys ws)
keep-keys id [] = refl
keep-keys id (w ∷ ws) = elim (Bool-cases (w.id == id)) [
  | inl here ↦ rw here (keep-keys id ws)
  | inr other ↦ rw (other, keep-keys id ws)
]

pub append-keys : (ws us : List WindowInstance) → keys (ws ++ us) ≡ keys ws ++ keys us
append-keys [] us = refl
append-keys (w ∷ ws) us = rw (append-keys ws us)

lift_bounded :
    (id : String) (z : ℕ) (ks : List Key)
    → All (λ k. k.level ≤ z) ks
    → All (λ k. k.level ≤ z) (lift_keys id z ks)
unfolding lift_keys
lift_bounded id z [] h = tt
lift_bounded id z (k ∷ ks) h = (
  elim (Bool-cases (k.id == id)) [ inl here ↦ rw here (omega arith) | inr other ↦ rw other h.0 ],
  lift_bounded id z ks h.1,
)

-- Tests that the level does not enter.
lift_same :
    (p : Key → Bool) (id : String) (z : ℕ) (ks : List Key)
    → ((k : Key) → p (lift_key z k) ≡ p k)
    → count p (lift_keys id z ks) ≡ count p ks
unfolding lift_keys
lift_same p id z [] h = refl
lift_same p id z (k ∷ ks) h =
    let same = h k in
    let rest = lift_same p id z ks h in
    elim (Bool-cases (k.id == id)) [
      | inl here ↦ rw here (ground arith)
      | inr other ↦ rw other (ground arith)
    ]

unused_level :
    (z : ℕ) (ks : List Key) (last : ℕ)
    → All (λ k. k.level ≤ last) ks
    → last < z
    → All (λ k. at_level z k ≡ false) ks
unused_level z [] last h lt = tt
unused_level z (k ∷ ks) last h lt = (let low = h.0 in ground arith, unused_level z ks last h.1 lt)

lift_other_level :
    (id : String) (z y : ℕ) (ks : List Key)
    → (z == y) ≡ false
    → count (at_level y) (lift_keys id z ks) ≤ count (at_level y) ks
unfolding lift_keys
lift_other_level id z y [] h = omega arith
lift_other_level id z y (k ∷ ks) h =
    let rest = lift_other_level id z y ks h in
    elim (Bool-cases (k.id == id)) [
      | inl here ↦ rw here (ground arith)
      | inr other ↦ rw other (ground arith)
    ]

lift_own_level :
    (id : String) (z : ℕ) (ks : List Key)
    → All (λ k. at_level z k ≡ false) ks
    → count (at_level z) (lift_keys id z ks) ≤ count (named id) ks
unfolding lift_keys
lift_own_level id z [] h = omega arith
lift_own_level id z (k ∷ ks) h =
    let rest = lift_own_level id z ks h.1 in
    let unused = h.0 in
    elim (Bool-cases (k.id == id)) [
      | inl here ↦ rw here (ground arith)
      | inr other ↦ rw other (ground arith)
    ]

weaken_bounded :
    (ks : List Key) (last : ℕ) → All (λ k. k.level ≤ last) ks → All (λ k. k.level ≤ last + 1) ks
weaken_bounded ks last h = All-map _ _ (λ k low. omega arith) ks h

-- Giving a window the next level.
pub lift-IsOrdered :
    (id : String) (ks : List Key) (last : ℕ)
    → IsOrdered ks last
    → IsOrdered (lift_keys id (last + 1) ks) (last + 1)
lift-IsOrdered id ks last h = record {
  bounded = lift_bounded id (last + 1) ks (weaken_bounded ks last h.bounded);
  one_id = λ x.
      let same = lift_same (named x) id (last + 1) ks (λ k. refl) in
      let most = h.one_id x in omega arith;
  one_app = λ x.
      let same = lift_same (of_app x) id (last + 1) ks (λ k. refl) in
      let most = h.one_app x in omega arith;
  one_level = λ y. elim (Bool-cases (last + 1 == y)) [
    | inl own ↦
        let e : last + 1 ≡ y = ground arith in
        let less =
          lift_own_level id (last + 1) ks
            (unused_level (last + 1) ks last h.bounded (omega arith)) in
        let most = h.one_id id in
        subst (λ y. count (at_level y) (lift_keys id (last + 1) ks) ≤ 1) e (omega arith)
    | inr other ↦
        let less = lift_other_level id (last + 1) y ks other in
        let most = h.one_level y in omega arith
  ];
}

-- A window goes away.
pub keep-IsOrdered :
    (q : Key → Bool) (ks : List Key) (last : ℕ) → IsOrdered ks last → IsOrdered (keep q ks) last
keep-IsOrdered q ks last h = record {
  bounded = All-keep _ q ks h.bounded;
  one_id = λ x. let less = count-keep (named x) q ks in let most = h.one_id x in omega arith;
  one_app = λ x. let less = count-keep (of_app x) q ks in let most = h.one_app x in omega arith;
  one_level =
      λ x. let less = count-keep (at_level x) q ks in let most = h.one_level x in omega arith;
}

module _ (ks : List Key) (last : ℕ) (k : Key) (h : IsOrdered ks last) where
  append_once :
      (p : Key → Bool) → count p ks ≤ 1 → (p k ≡ true → count p ks ≡ 0) → count p (ks ++ k ∷ []) ≤ 1
  append_once p most fresh =
      let sum = count-append p ks (k ∷ []) in
      elim (Bool-cases (p k)) [
        | inl hit ↦ let before = fresh hit in ground arith
        | inr miss ↦ ground arith
      ]

  -- A new window with a new id, of an app that has none, at the next level.
  pub append-IsOrdered :
      count (named k.id) ks ≡ 0
      → count (of_app k.app) ks ≡ 0
      → k.level ≡ last + 1
      → IsOrdered (ks ++ k ∷ []) (last + 1)
  append-IsOrdered new_id new_app top = record {
    bounded = All-append _ ks (k ∷ []) (weaken_bounded ks last h.bounded) (omega arith, tt);
    one_id = λ x.
        append_once (named x) (h.one_id x)
          (λ hit. subst (λ y. count (named y) ks ≡ 0) ((eq_iff k.id x).0 hit) new_id);
    one_app = λ x.
        append_once (of_app x) (h.one_app x)
          (λ hit. subst (λ y. count (of_app y) ks ≡ 0) ((eq_iff k.app x).0 hit) new_app);
    one_level = λ y.
        append_once (at_level y) (h.one_level y)
          (λ hit. count-none (at_level y) ks (unused_level y ks last h.bounded (ground arith)));
  }
