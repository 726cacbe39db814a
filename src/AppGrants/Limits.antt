-- ===== src/AppGrants/Limits.antt =====
-- The table of grants under `grantPath` and the revocations.
use mathlib.Core.Path.{subst}
use text.Mathlib.TextEquality.{eq_iff}
use opennas.Base.{
  count, count-append, count-keep, count-map, count-none, count-keep_drops, ℕ, ◌≤◌, ◌<◌, String,
  ◌≡◌, refl, sym, ap, inl, inr, Bool, true, not, Option, none, some, List, [], ◌∷◌, ◌++◌, arith,
  ltb, leb, if◌then◌else◌, leb→le, Bool-cases, Option-cases, ◌==◌, nat_eq, string_eq, list_eq,
  list_beq_iff, length, keep, find, All, All-append, All-keep, Text, Any, Any-keep, find-none,
}
use opennas.Files.Paths.{normalize_virtual}
use opennas.Files.Paths.Normal.{normalize_virtual_form}
use opennas.AppGrants.{
  EntryType, Mode, GrantRow, max_grants_per_app, is_held, is_grant, used_at, least_used,
  least_used_id, drop_id, make_room, widen, update_grant, new_grant, grant_path,
  revoke_grant_for_user, revoke_grant, revoke_all_for_app,
}
use opennas.AppGrants.Handed.{IsNormal}

-- Every path is normal, an app holds at most 32 grants of one user, and at most one of one path.
pub record IsWellFormed (table : List GrantRow) : Type 0 where
  pub normal : All IsNormal table
  pub bounded : (app user : String) → count (is_held app user) table ≤ max_grants_per_app
  pub unique : (app user : String) (path : Text) → count (is_grant app user path) table ≤ 1

keep-IsWellFormed :
    (q : GrantRow → Bool) (table : List GrantRow) → IsWellFormed table → IsWellFormed (keep q table)
keep-IsWellFormed q table h = record {
  normal = All-keep IsNormal q table h.normal;
  bounded = λ app user.
      let less = count-keep (is_held app user) q table in
      let most = h.bounded app user in omega arith;
  unique = λ app user path.
      let less = count-keep (is_grant app user path) q table in
      let most = h.unique app user path in omega arith;
}

least_used-Any : (r : GrantRow) (rows : List GrantRow) → Any (λ s. s ≡ least_used r rows) (r ∷ rows)
unfolding least_used
least_used-Any r [] = inl refl
least_used-Any r (s ∷ rows) = elim (Bool-cases (ltb (used_at s) (used_at r))) [
  | inl older ↦
      let e : least_used r (s ∷ rows) ≡ least_used s rows = rw older in
      subst (λ m. Any (λ x. x ≡ m) (r ∷ s ∷ rows)) (sym e) (inr (least_used-Any s rows))
  | inr newer ↦
      let e : least_used r (s ∷ rows) ≡ least_used r rows = rw newer in
      subst (λ m. Any (λ x. x ≡ m) (r ∷ s ∷ rows)) (sym e)
        (elim (least_used-Any r rows) [ inl here ↦ inl here | inr later ↦ inr (inr later) ])
]

keep_all : (table : List GrantRow) → keep (λ r. true) table ≡ table
keep_all [] = refl
keep_all (r ∷ table) = ap (λ l. r ∷ l) (keep_all table)

drop_id-keep :
    (id : Option String) (table : List GrantRow)
    → (q : GrantRow → Bool) × (drop_id id table ≡ keep q table)
drop_id-keep none table = ((λ r. true), sym (keep_all table))
drop_id-keep (some id) table = ((λ r. not (r.id == id)), refl)

-- Making room only drops rows.
make_room-keep :
    (app user : String) (table : List GrantRow)
    → (q : GrantRow → Bool) × (make_room app user table ≡ keep q table)
unfolding make_room
make_room-keep app user table =
    elim (Bool-cases (leb max_grants_per_app (length (keep (is_held app user) table)))) [
      | inl full ↦
          let (q, e) = drop_id-keep (least_used_id (keep (is_held app user) table)) table in
          (q, rw full e)
      | inr free ↦ ((λ r. true), rw free (sym (keep_all table)))
    ]

drop_id-lowers :
    (p : GrantRow → Bool) (held table : List GrantRow)
    → held ≡ keep p table
    → 1 ≤ length held
    → count p (drop_id (least_used_id held) table) < count p table
drop_id-lowers p [] table e h = absurd (omega arith)
drop_id-lowers p (r ∷ held) table e h =
    let gone = (least_used r held).id in
    let found = subst (Any (λ s. s ≡ least_used r held)) e (least_used-Any r held) in
    count-keep_drops p (λ s. not (s.id == gone)) table
      (Any-keep p
        (λ s holds same.
          let same_id : (s.id == gone) ≡ true = (eq_iff s.id gone).1 (ap (λ x. x.id) same) in
          (holds, ground arith))
        table found)

make_room_leaves :
    (app user : String) (table : List GrantRow)
    → count (is_held app user) table ≤ max_grants_per_app
    → count (is_held app user) (make_room app user table) < max_grants_per_app
unfolding make_room
make_room_leaves app user table h =
    elim (Bool-cases (leb max_grants_per_app (length (keep (is_held app user) table)))) [
      | inl full ↦
          let many = leb→le _ _ full in
          let less =
            drop_id-lowers (is_held app user) (keep (is_held app user) table) table refl
              (omega arith) in
          rw full (omega arith)
      | inr free ↦ rw free (ground arith)
    ]

abbrev set_row : String → Mode → EntryType → GrantRow → GrantRow
set_row id mode type r = if r.id == id then record r { mode = mode; type = type } else r

update-IsNormal :
    (id : String) (mode : Mode) (type : EntryType) (table : List GrantRow)
    → All IsNormal table
    → All IsNormal (update_grant id mode type table)
unfolding update_grant
update-IsNormal id mode type [] h = tt
update-IsNormal id mode type (r ∷ table) h = (
  elim (Bool-cases (r.id == id)) [ inl same ↦ rw same h.0 | inr other ↦ rw other h.0 ],
  update-IsNormal id mode type table h.1,
)

-- An update of mode and type leaves the owner and the path of each row.
update-IsWellFormed :
    (id : String) (mode : Mode) (type : EntryType) (table : List GrantRow)
    → IsWellFormed table
    → IsWellFormed (update_grant id mode type table)
unfolding update_grant
update-IsWellFormed id mode type table h = record {
  normal = update-IsNormal id mode type table h.normal;
  bounded = λ app user.
      let same =
        count-map (is_held app user) (set_row id mode type) table
          (λ r. elim (Bool-cases (r.id == id)) [ inl same ↦ rw same | inr other ↦ rw other ]) in
      let most = h.bounded app user in omega arith;
  unique = λ app user path.
      let same =
        count-map (is_grant app user path) (set_row id mode type) table
          (λ r. elim (Bool-cases (r.id == id)) [ inl same ↦ rw same | inr other ↦ rw other ]) in
      let most = h.unique app user path in omega arith;
}

module _ (table : List GrantRow) (row : GrantRow) (h : IsWellFormed table) where
  abbrev room : List GrantRow
  room = make_room row.app_id row.user_id table

  room-IsWellFormed : IsWellFormed room
  room-IsWellFormed =
      let (q, e) = make_room-keep row.app_id row.user_id table in
      subst IsWellFormed (sym e) (keep-IsWellFormed q table h)

  own_bounded : count (is_held row.app_id row.user_id) (room ++ row ∷ []) ≤ max_grants_per_app
  own_bounded =
      let less = make_room_leaves row.app_id row.user_id table (h.bounded row.app_id row.user_id) in
      let sum = count-append (is_held row.app_id row.user_id) room (row ∷ []) in ground (arith)

  insert_bounded : (a u : String) → count (is_held a u) (room ++ row ∷ []) ≤ max_grants_per_app
  insert_bounded a u = elim (Bool-cases (is_held a u row)) [
    | inl here ↦
        let same_app : row.app_id ≡ a = (eq_iff row.app_id a).0 (ground arith) in
        let same_user : row.user_id ≡ u = (eq_iff row.user_id u).0 (ground arith) in
        subst (λ x. count (is_held a x) (room ++ row ∷ []) ≤ max_grants_per_app) same_user
          (subst (λ x. count (is_held x row.user_id) (room ++ row ∷ []) ≤ max_grants_per_app)
            same_app own_bounded)
    | inr other ↦
        let most = room-IsWellFormed.bounded a u in
        let sum = count-append (is_held a u) room (row ∷ []) in ground (arith)
  ]

  -- A path that no row holds is held once after the insertion.
  insert_unique :
      find (is_grant row.app_id row.user_id row.path) table ≡ none
      → (a u : String) (path : Text) → count (is_grant a u path) (room ++ row ∷ []) ≤ 1
  insert_unique missing a u path = elim (Bool-cases (is_grant a u path row)) [
    | inl here ↦
        let same_app : row.app_id ≡ a = (eq_iff row.app_id a).0 (ground arith) in
        let same_user : row.user_id ≡ u = (eq_iff row.user_id u).0 (ground arith) in
        let same_path : row.path ≡ path = (list_beq_iff row.path path).0 (ground arith) in
        let gone : find (is_grant a u path) table ≡ none =
          subst (λ x. find (is_grant x u path) table ≡ none) same_app
            (subst (λ x. find (is_grant row.app_id x path) table ≡ none) same_user
              (subst (λ x. find (is_grant row.app_id row.user_id x) table ≡ none) same_path
                missing)) in
        let zero_before =
          count-none (is_grant a u path) table (find-none (is_grant a u path) table gone) in
        let (q, e) = make_room-keep row.app_id row.user_id table in
        let less = count-keep (is_grant a u path) q table in
        let room_less : count (is_grant a u path) room ≤ 0 =
          subst (λ l. count (is_grant a u path) l ≤ 0) (sym e) (omega arith) in
        let sum = count-append (is_grant a u path) room (row ∷ []) in ground (arith)
    | inr other ↦
        let most = room-IsWellFormed.unique a u path in
        let sum = count-append (is_grant a u path) room (row ∷ []) in ground (arith)
  ]

  insert-IsWellFormed :
      IsNormal row
      → find (is_grant row.app_id row.user_id row.path) table ≡ none
      → IsWellFormed (room ++ row ∷ [])
  insert-IsWellFormed normal missing = record {
    normal = All-append IsNormal room (row ∷ []) room-IsWellFormed.normal (normal, tt);
    bounded = insert_bounded;
    unique = insert_unique missing;
  }

-- Picking a folder and each of the revocations keep the table in order: its paths are normal, an app holds at
-- most 32 grants of one user, and at most one for each path.
pub grant_path-IsWellFormed :
    (id : String) (now : ℕ) (table : List GrantRow) (app user : String) (path : Text)
    (type : EntryType) (mode : Mode) (handle : String)
    → IsWellFormed table
    → IsWellFormed ((grant_path id now table app user path type mode).0)
      × IsWellFormed ((revoke_grant_for_user table user handle).0)
      × IsWellFormed ((revoke_grant table app user handle).0)
      × IsWellFormed ((revoke_all_for_app table app).0)
unfolding grant_path revoke_grant_for_user revoke_grant revoke_all_for_app
grant_path-IsWellFormed id now table app user path type mode handle h =
    let p = normalize_virtual path in
    (
      elim (Option-cases (find (is_grant app user p) table)) [
        | inl missing ↦
            rw (missing, grant_path)
              (insert-IsWellFormed table (new_grant id now app user p type mode) h
                (sym (normalize_virtual_form path).2) missing)
        | inr (existing, found) ↦
            rw (found, grant_path)
              (update-IsWellFormed existing.id (widen existing.mode mode) type table h)
      ],
      keep-IsWellFormed _ table h,
      keep-IsWellFormed _ table h,
      keep-IsWellFormed _ table h,
    )
