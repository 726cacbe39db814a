-- ===== src/OidcStore/SingleUse.antt =====
-- How often and how long an authorisation code serves.
use mathlib.Core.Path.{subst}
use text.Mathlib.TextEquality.{eq_iff}
use opennas.Base.{
  ℕ, ◌+◌, ◌≤◌, ◌<◌, String, ◌≡◌, refl, sym, ap, ◌∙◌, inl, inr, Bool, true, false, not, Option, none,
  some, List, [], ◌∷◌, arith, ltb, leb, Bool-cases, ◌==◌, nat_eq, string_eq, list_eq, ==_self, All,
}
use opennas.OidcStore.{
  AuthCode, AccessToken, OidcMaps, map_get, map_delete, map_set, map_keep, issue_code, unexpired,
  consume_code, issue_access_token, get_access_token, prune_oidc,
}

-- What happens in the store between the issue of a code and its use: other codes and tokens, and the cleanup.
pub data Event : Type 0 where
  issues : String → AuthCode → ℕ → Event
  consumes : String → ℕ → Event
  hands_out : String → AccessToken → ℕ → ℕ → Event
  looks_up : String → ℕ → Event
  prunes : ℕ → Event

abbrev pub happen : Event → OidcMaps → OidcMaps
happen (issues c d now) m = issue_code now m c d
happen (consumes c now) m = (consume_code now m c).0
happen (hands_out x d now ttl) m = (issue_access_token now m x d ttl).0
happen (looks_up x now) m = (get_access_token now m x).0
happen (prunes now) m = prune_oidc now m

abbrev pub run : List Event → OidcMaps → OidcMaps
run [] m = m
run (e ∷ es) m = run es (happen e m)

-- An event of another code, or a cleanup no later than a time.
abbrev pub IsForeign : String → ℕ → Event → Type 0
IsForeign code last (issues c d now) = (c == code) ≡ false
IsForeign code last (consumes c now) = (c == code) ≡ false
IsForeign code last (hands_out x d now ttl) = Unit
IsForeign code last (looks_up x now) = Unit
IsForeign code last (prunes now) = now ≤ last

module _ {A : Type 0} where
  get-set : (m : List (String × A)) (key : String) (v : A) → map_get (map_set m key v) key ≡ some v
  unfolding map_get map_set
  get-set [] key v = let me = ==_self key in rw me
  get-set ((k, w) ∷ m) key v = elim (Bool-cases (k == key)) [
    | inl hit ↦ rw (hit, hit)
    | inr miss ↦ rw (miss, miss) (get-set m key v)
  ]

  get-set_other :
      (m : List (String × A)) (other key : String) (v : A)
      → (other == key) ≡ false
      → map_get (map_set m other v) key ≡ map_get m key
  unfolding map_get map_set
  get-set_other [] other key v h = rw h
  get-set_other ((k, w) ∷ m) other key v h = elim (Bool-cases (k == other)) [
    | inl hit ↦
        let foreign : (k == key) ≡ false =
          subst (λ z. (z == key) ≡ false) (sym ((eq_iff k other).0 hit)) h in
        rw (hit, foreign)
    | inr miss ↦ rw miss (elim (Bool-cases (k == key)) [
      | inl mine ↦ rw mine
      | inr away ↦ rw away (get-set_other m other key v h)
    ])
  ]

  get-delete : (m : List (String × A)) (key : String) → map_get (map_delete m key) key ≡ none
  unfolding map_get map_delete
  get-delete [] key = refl
  get-delete ((k, w) ∷ m) key = elim (Bool-cases (k == key)) [
    | inl hit ↦ rw hit (get-delete m key)
    | inr miss ↦ rw (miss, miss) (get-delete m key)
  ]

  get-delete_other :
      (m : List (String × A)) (other key : String)
      → (other == key) ≡ false
      → map_get (map_delete m other) key ≡ map_get m key
  unfolding map_get map_delete
  get-delete_other [] other key h = refl
  get-delete_other ((k, w) ∷ m) other key h = elim (Bool-cases (k == other)) [
    | inl hit ↦
        let foreign : (k == key) ≡ false =
          subst (λ z. (z == key) ≡ false) (sym ((eq_iff k other).0 hit)) h in
        rw (hit, foreign) (get-delete_other m other key h)
    | inr miss ↦ rw miss (elim (Bool-cases (k == key)) [
      | inl mine ↦ rw mine
      | inr away ↦ rw away (get-delete_other m other key h)
    ])
  ]

abbrev Passes : (AuthCode → Bool) → Option AuthCode → Type 0
Passes p none = Unit
Passes p (some c) = p c ≡ true

get-keep :
    (p : AuthCode → Bool) (m : List (String × AuthCode)) (key : String)
    → Passes p (map_get m key)
    → map_get (map_keep p m) key ≡ map_get m key
unfolding map_get map_keep
get-keep p [] key h = refl
get-keep p ((k, v) ∷ m) key h = elim (Bool-cases (k == key)) [
  | inl mine ↦ let kept : p v ≡ true = rw mine at h in rw (kept, mine)
  | inr away ↦
      let rest = get-keep p m key (rw away at h) in
      elim (Bool-cases (p v)) [
        | inl stays ↦ rw (stays, away) rest
        | inr goes ↦ rw (goes, away) rest
      ]
]

abbrev Outlives : ℕ → Option AuthCode → Type 0
Outlives last none = Unit
Outlives last (some c) = last < c.exp

Outlives-Passes :
    (last now : ℕ) (o : Option AuthCode)
    → now ≤ last
    → Outlives last o
    → Passes (λ c. not (leb c.exp now)) o
Outlives-Passes last now none h k = tt
Outlives-Passes last now (some c) h k = ground arith

get-happen :
    (code : String) (last : ℕ) (e : Event) (m : OidcMaps)
    → IsForeign code last e
    → Outlives last (map_get m.codes code)
    → map_get (happen e m).codes code ≡ map_get m.codes code
unfolding issue_code consume_code issue_access_token get_access_token prune_oidc
get-happen code last (issues c d now) m f h = get-set_other m.codes c code _ f
get-happen code last (consumes c now) m f h = get-delete_other m.codes c code f
get-happen code last (hands_out x d now ttl) m f h = refl
get-happen code last (looks_up x now) m f h = refl
get-happen code last (prunes now) m f h =
    get-keep _ m.codes code (Outlives-Passes last now (map_get m.codes code) f h)

get-run :
    (code : String) (last : ℕ) (es : List Event) (m : OidcMaps)
    → All (IsForeign code last) es
    → Outlives last (map_get m.codes code)
    → map_get (run es m).codes code ≡ map_get m.codes code
get-run code last [] m fs h = refl
get-run code last (e ∷ es) m (f, fs) h =
    let step = get-happen code last e m f h in
    get-run code last es (happen e m) fs (subst (Outlives last) (sym step) h) ∙ step

-- A code that was issued is answered with its data, whatever is done with other codes and tokens in between and
-- however often the store is cleaned up, if it is used within a minute; and then never again. A code that is used
-- later than a minute after its issue is refused.
pub consume_code-issue_code :
    (m : OidcMaps) (code : String) (d : AuthCode) (issued now again late : ℕ)
    (between after : List Event)
    → All (IsForeign code now) between
    → All (IsForeign code again) after
    → now < issued + 60000
    → issued + 60000 ≤ late
    → let c : AuthCode = record d { exp = issued + 60000 } in
      let ready = run between (issue_code issued m code d) in
      let (used, answer) = consume_code now ready code in
      (answer ≡ some c)
      × ((consume_code again (run after used) code).1 ≡ none)
      × ((consume_code late (issue_code issued m code d) code).1 ≡ none)
unfolding consume_code issue_code
consume_code-issue_code m code d issued now again late between after fs gs soon over =
    let c : AuthCode = record d { exp = issued + 60000 } in
    let stored : map_get (map_set m.codes code c) code ≡ some c = get-set m.codes code c in
    let kept =
      get-run code now between (issue_code issued m code d) fs
        (subst (Outlives now) (sym stored) soon)
      ∙ stored in
    let gone = get-delete (run between (issue_code issued m code d)).codes code in
    let still =
      get-run code again after
        ((consume_code now (run between (issue_code issued m code d)) code).0) gs
        (subst (Outlives again) (sym gone) tt)
      ∙ gone in
    let young : ltb now (issued + 60000) ≡ true = ground arith in
    let old : ltb late (issued + 60000) ≡ false = ground arith in
    (
      ap (unexpired now) kept ∙ rw young,
      ap (unexpired again) still,
      ap (unexpired late) stored ∙ rw old,
    )
