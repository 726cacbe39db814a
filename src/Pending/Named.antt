-- ===== src/Pending/Named.antt =====
-- The path that a request names, and the paths that clear the gate.
use opennas.Base.{
  ℕ, ◌≡◌, refl, sym, ap, ◌∙◌, ◌≢◌, ◌↔◌, ◌⊎◌, inl, inr, Bool, true, false, ◌||◌, List, [], ◌∷◌, ◌++◌,
  arith, nat_beq_iff, Bool-cases, ◌==◌, nat_eq, string_eq, list_eq, list_beq_iff, All, Text, codes,
  split, starts_with, drop, clash, starts_with-append, starts_with_rest,
}
use opennas.Base.{push_head}
use opennas.Pending.{is_allowed, question_mark, first_or_empty, without_prefix, path_of}

-- A text without the "/api" that it may begin with.
abbrev pub IsUnprefixed : Text → Text → Type 0
IsUnprefixed url tail =
    (url ≡ codes "/api" ++ tail) ⊎ ((url ≡ tail) × ((more : Text) → url ≢ codes "/api" ++ more))

-- What stands before the first question mark.
abbrev pub IsBeforeQuery : Text → Text → Type 0
IsBeforeQuery tail path =
    All (λ c. (c == question_mark) ≡ false) path
    × ((tail ≡ path) ⊎ ((query : Text) × (tail ≡ path ++ question_mark ∷ query)))

-- Who one is, signing out, a new password, profile pictures and passkeys.
abbrev pub IsClearing : Text → Type 0
IsClearing path =
    ((((((path ≡ codes "/auth/me") ⊎ (path ≡ codes "/auth/bootstrap"))
            ⊎ (path ≡ codes "/auth/logout"))
          ⊎ (path ≡ codes "/auth/me/password"))
        ⊎ ((rest : Text) × (path ≡ codes "/auth/avatars/" ++ rest)))
      ⊎ (path ≡ codes "/auth/passkeys"))
    ⊎ ((rest : Text) × (path ≡ codes "/auth/passkeys/" ++ rest))

without_prefix-IsUnprefixed : (url : Text) → IsUnprefixed url (without_prefix url)
unfolding without_prefix
without_prefix-IsUnprefixed url = elim (Bool-cases (starts_with url (codes "/api"))) [
  | inl api ↦
      let (rest, e) = starts_with_rest url (codes "/api") api in
      inl (rw api (e ∙ ap (λ u. codes "/api" ++ drop 4 u) (sym e)))
  | inr bare ↦ inr (
    rw bare refl,
    λ more e.
        clash bare
          (ap (λ u. starts_with u (codes "/api")) e ∙ starts_with-append (codes "/api") more),
  )
]

first-push_head :
    (x : ℕ) (parts : List Text) → first_or_empty (push_head x parts) ≡ x ∷ first_or_empty parts
first-push_head x [] = refl
first-push_head x (w ∷ ws) = refl

before-push_head :
    (x : ℕ) (s : Text) (parts : List Text)
    → (x == question_mark) ≡ false
    → IsBeforeQuery s (first_or_empty parts)
    → IsBeforeQuery (x ∷ s) (first_or_empty (push_head x parts))
before-push_head x s parts miss (free, h) = rw (first-push_head x parts) (
  (miss, free),
  elim h [
    | inl same ↦ inl (ap (λ z. x ∷ z) same)
    | inr (query, e) ↦ inr (query, ap (λ z. x ∷ z) e)
  ],
)

split-IsBeforeQuery : (s : Text) → IsBeforeQuery s (first_or_empty (split question_mark s))
unfolding split
split-IsBeforeQuery [] = (tt, inl refl)
split-IsBeforeQuery (x ∷ s) = elim (Bool-cases (x == question_mark)) [
  | inl hit ↦ rw hit (tt, inr (s, ap (λ c. c ∷ s) ((nat_beq_iff x question_mark).0 hit)))
  | inr miss ↦ rw miss (before-push_head x s (split question_mark s) miss (split-IsBeforeQuery s))
]

pub path_of-names :
    (url : Text) → (tail : Text) × IsUnprefixed url tail × IsBeforeQuery tail (path_of url)
unfolding path_of
path_of-names url =
    (without_prefix url, without_prefix-IsUnprefixed url, split-IsBeforeQuery (without_prefix url))

or_iff :
    {A B : Type 0} → {a b : Bool} → (a ≡ true) ↔ A → (b ≡ true) ↔ B → ((a || b) ≡ true) ↔ (A ⊎ B)
or_iff {a = a} {b = b} f g = (
  (λ h. elim (Bool-cases a) [ inl hit ↦ inl (f.0 hit) | inr miss ↦ inr (g.0 (rw miss at h)) ]),
  (λ either. elim either [
    | inl x ↦ let e = f.1 x in ground arith
    | inr y ↦ let e = g.1 y in ground arith
  ]),
)

starts_iff :
    (path prefix : Text)
    → (starts_with path prefix ≡ true) ↔ ((rest : Text) × (path ≡ prefix ++ rest))
starts_iff path prefix = (
  (λ h. starts_with_rest path prefix h),
  (λ (rest, e). ap (λ u. starts_with u prefix) e ∙ starts_with-append prefix rest),
)

same_iff : (path text : Text) → ((path == text) ≡ true) ↔ (path ≡ text)
same_iff path text = list_beq_iff path text

pub is_allowed_iff : (path : Text) → (is_allowed path ≡ true) ↔ IsClearing path
unfolding is_allowed
is_allowed_iff path =
    or_iff
      (or_iff
        (or_iff
          (or_iff
            (or_iff
              (or_iff (same_iff path (codes "/auth/me")) (same_iff path (codes "/auth/bootstrap")))
              (same_iff path (codes "/auth/logout")))
            (same_iff path (codes "/auth/me/password")))
          (starts_iff path (codes "/auth/avatars/")))
        (same_iff path (codes "/auth/passkeys")))
      (starts_iff path (codes "/auth/passkeys/"))
