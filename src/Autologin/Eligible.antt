-- ===== src/Autologin/Eligible.antt =====
-- Whom `autologinUserFor` signs in.
use opennas.Base.{
  String, ◌≡◌, refl, sym, ap, ◌∙◌, ◌↔◌, inl, inr, Bool, true, false, ◌||◌, not, Option, none, some,
  List, [], ◌∷◌, arith, Bool-cases, Option-cases, nat_eq, string_eq, list_eq, any, Text, is_empty,
  Any,
}
use opennas.Files.Access.{is_admin}
use opennas.Autologin.{
  Account, Parsed, get_user_by_id, admit, autologin_config, address_matches, choose_user,
  autologin_user_for,
}

any-Any : {A : Type 0} (p : A → Bool) (xs : List A) → any p xs ≡ true → Any (λ x. p x ≡ true) xs
any-Any p [] h = absurd cc
any-Any p (x ∷ xs) h = elim (Bool-cases (p x)) [
  | inl hit ↦ inl hit
  | inr miss ↦ inr (any-Any p xs (ground arith))
]

Any-any : {A : Type 0} (p : A → Bool) (xs : List A) → Any (λ x. p x ≡ true) xs → any p xs ≡ true
Any-any p [] h = absurd h
Any-any p (x ∷ xs) (inl here) = rw here
Any-any p (x ∷ xs) (inr later) = let rest = Any-any p xs later in ground arith

Any-full : {A : Type 0} (P : A → Type 0) (xs : List A) → Any P xs → is_empty xs ≡ false
Any-full P [] h = absurd h
Any-full P (x ∷ xs) h = refl

admitted :
    (v u : Account)
    → admit v ≡ some u
    → (v ≡ u)
      × (is_admin v.role ≡ false)
      × (v.is_disabled ≡ false)
      × (v.must_change_password ≡ false)
admitted v u h = elim (Bool-cases (is_admin v.role)) [
  | inl a ↦ let no_one = rw a at h in absurd cc
  | inr a ↦ elim (Bool-cases v.is_disabled) [
    | inl b ↦ let no_one = rw (a, b) at h in absurd cc
    | inr b ↦ elim (Bool-cases v.must_change_password) [
      | inl c ↦ let no_one = rw (a, b, c) at h in absurd cc
      | inr c ↦ let same = rw (a, b, c) at h in (cc, a, b, c)
    ]
  ]
]

-- What must hold of the account and the address.
abbrev pub IsChosen :
    (Text → Text → Bool) → List Text → Option String → List Account → Text → Account → Type 0
IsChosen address_in_cidr networks user_id users ip u =
    ((id : String) × (user_id ≡ some id) × (get_user_by_id users id ≡ some u))
    × Any (λ cidr. address_in_cidr ip cidr ≡ true) networks
    × (is_admin u.role ≡ false)
    × (u.is_disabled ≡ false)
    × (u.must_change_password ≡ false)

chosen :
    (address_in_cidr : Text → Text → Bool) (networks : List Text) (user_id : Option String)
    (users : List Account) (ip : Text) (u : Account)
    → choose_user address_in_cidr networks user_id users ip ≡ some u
    → IsChosen address_in_cidr networks user_id users ip u
chosen address_in_cidr networks none users ip u h = absurd cc
chosen address_in_cidr networks (some id) users ip u h =
    elim (Bool-cases (address_matches address_in_cidr ip networks)) [
      | inr far ↦ let no_one = rw far at h in absurd cc
      | inl near ↦
          let found_one = rw near at h in
          elim (Option-cases (get_user_by_id users id)) [
            | inl missing ↦ let no_one = rw missing at found_one in absurd cc
            | inr (v, found) ↦
                let (same, plain, in_use, settled) = admitted v u (rw found at found_one) in
                (
                  (id, refl, found ∙ ap some same),
                  any-Any (λ cidr. address_in_cidr ip cidr) networks near,
                  ap (λ x. is_admin x.role) (sym same) ∙ plain,
                  ap (λ x. x.is_disabled) (sym same) ∙ in_use,
                  ap (λ x. x.must_change_password) (sym same) ∙ settled,
                )
          ]
    ]

choose_chosen :
    (address_in_cidr : Text → Text → Bool) (networks : List Text) (user_id : Option String)
    (users : List Account) (ip : Text) (u : Account)
    → IsChosen address_in_cidr networks user_id users ip u
    → choose_user address_in_cidr networks user_id users ip ≡ some u
choose_chosen address_in_cidr networks user_id users ip u
      ((id, e, found), near, plain, in_use, settled) =
    let close = Any-any (λ cidr. address_in_cidr ip cidr) networks near in
    rw (e, choose_user, close, found, plain, in_use, settled)

-- Who is signed in without a credential is decided as follows, and nobody else is: the setting is on, it
-- names the account, the address is in one of its networks, and the account is at that moment no
-- administrator, not disabled, and has no temporary password. Whether the account uses two factors
-- does not matter.
pub autologin_user_for_iff :
    (parse : Text → Option Parsed) (address_in_cidr : Text → Text → Bool) (setting : Option Text)
    (users : List Account) (ip : Text) (u : Account)
    → (autologin_user_for parse address_in_cidr setting users ip ≡ some u)
      ↔ ((autologin_config parse setting).enabled ≡ true)
        × IsChosen address_in_cidr
            (autologin_config parse setting).networks
            (autologin_config parse setting).user_id
            users
            ip
            u
unfolding autologin_user_for
autologin_user_for_iff parse address_in_cidr setting users ip u =
    let config = autologin_config parse setting in
    (
      (λ h. elim (Bool-cases (not config.enabled || is_empty config.networks)) [
        | inl off ↦ let no_one = rw off at h in absurd cc
        | inr on ↦
            let on_it : config.enabled ≡ true = ground arith in
            (on_it, chosen address_in_cidr config.networks config.user_id users ip u (rw on at h))
      ]),
      (λ (on, is_chosen).
          let full =
            Any-full (λ cidr. address_in_cidr ip cidr ≡ true) config.networks is_chosen.1 in
          rw (on, full)
            (choose_chosen address_in_cidr config.networks config.user_id users ip u is_chosen)),
    )
