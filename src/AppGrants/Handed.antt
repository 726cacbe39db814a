-- ===== src/AppGrants/Handed.antt =====
-- What an app gets from `resolveGrant`.
use mathlib.Core.Path.{subst}
use opennas.Base.{
  clash, ℕ, String, ◌≡◌, refl, sym, ◌∙◌, inl, inr, Bool, true, false, ◌&&◌, not, Option, none, some,
  List, [], ◌∷◌, ◌++◌, if◌then◌else◌, Bool-cases, Option-cases, ◌==◌, nat_eq, string_eq, list_eq,
  find, All, Text, is_empty, starts_with, All-find,
}
use opennas.Files.Paths.{slash, normalize_virtual, virtual_segments}
use opennas.Files.Paths.Canonical.{canonical}
use opennas.Files.Paths.Normal.{normalize_virtual_form}
use opennas.Files.Access.{User, Access, Tables, path_access}
use opennas.Files.Access.Granted.{path_access-May}
use opennas.AppGrants.{
  GrantRow, is_readwrite, ResolvedPath, Options, root_of, touch, resolve_handle, resolve_permission,
  or_empty, without_handle, resolve_grant,
}
use opennas.AppGrants.Confine.{pinned, inside_accepted}

abbrev pub is_named : String → String → String → GrantRow → Bool
is_named handle app user r = r.id == handle && r.app_id == app && r.user_id == user

-- The rows hold normal paths.
abbrev pub IsNormal : GrantRow → Type 0
IsNormal r = r.path ≡ normalize_virtual r.path

abbrev pub joined_with : GrantRow → Text → Text
joined_with row rel = normalize_virtual (row.path ++ slash ∷ rel)

-- The first is the second or lies below it.
abbrev pub IsInside : Text → Text → Type 0
IsInside path root = (more : List Text) × (virtual_segments path ≡ virtual_segments root ++ more)

-- The table and the path that a request with a handle leaves and gets.
pub data Handed (db : Tables) (u : User) (app : String) (now : ℕ) (table : List GrantRow)
    (handle : String) (rel : Text) : List GrantRow → Option ResolvedPath → Type 0 where
  unknown :
      find (is_named handle app u.id) table ≡ none → Handed db u app now table handle rel table none
  outside :
      {row : GrantRow}
      → find (is_named handle app u.id) table ≡ some row
      → (IsInside (joined_with row rel) row.path → ⊥)
      → Handed db u app now table handle rel table none
  unreadable :
      {row : GrantRow} {access : Access}
      → find (is_named handle app u.id) table ≡ some row
      → IsInside (joined_with row rel) row.path
      → path_access db u (joined_with row rel) ≡ some access
      → access.read ≡ false
      → Handed db u app now table handle rel table none
  granted :
      {row : GrantRow} {access : Access}
      → find (is_named handle app u.id) table ≡ some row
      → IsInside (joined_with row rel) row.path
      → path_access db u (joined_with row rel) ≡ some access
      → access.read ≡ true
      → Handed db u app now table handle rel (touch row.id now table) (
          some (record {
            path = joined_with row rel;
            read = true;
            write = access.write && is_readwrite row.mode;
          }))

abbrev is_refused : Text → Text → Bool
is_refused joined root = not (joined == root) && not (starts_with joined (root_of root))

normal_canonical : (t : Text) → t ≡ normalize_virtual t → t ≡ canonical (virtual_segments t)
normal_canonical t h = h ∙ (normalize_virtual_form t).0

canonical_refused :
    (j r : Text) (b : Bool)
    → j ≡ normalize_virtual j
    → r ≡ normalize_virtual r
    → is_refused j r ≡ b
    → is_refused (canonical (virtual_segments j)) (canonical (virtual_segments r)) ≡ b
canonical_refused j r b nj nr h =
    subst (λ t. is_refused (canonical (virtual_segments j)) t ≡ b) (normal_canonical r nr)
      (subst (λ t. is_refused t r ≡ b) (normal_canonical j nj) h)

accepted-IsInside :
    (j r : Text)
    → j ≡ normalize_virtual j
    → r ≡ normalize_virtual r
    → is_refused j r ≡ false
    → IsInside j r
accepted-IsInside j r nj nr h =
    pinned (virtual_segments j) (virtual_segments r) (normalize_virtual_form j).1
      (normalize_virtual_form r).1 (canonical_refused j r false nj nr h)

refused_outside :
    (j r : Text)
    → j ≡ normalize_virtual j
    → r ≡ normalize_virtual r
    → is_refused j r ≡ true
    → IsInside j r
    → ⊥
refused_outside j r nj nr h (more, e) =
    clash (inside_accepted (virtual_segments r) more (normalize_virtual_form r).1) (
      subst (λ l. is_refused (canonical l) (canonical (virtual_segments r)) ≡ true) e
        (canonical_refused j r true nj nr h))

joined_normal :
    (row : GrantRow) (rel : Text) → joined_with row rel ≡ normalize_virtual (joined_with row rel)
joined_normal row rel = sym (normalize_virtual_form (row.path ++ slash ∷ rel)).2

-- A request with a handle never throws. It gets nothing, and changes nothing, if the user gave this app
-- no grant of that handle, if the joined path is not in the granted folder, or if the user may not read
-- it now. Otherwise it gets the joined path, for writing if the user may write it now and the grant is for
-- reading and writing, and only the grant's time of use changes. The paths of the stored grants are normal.
pub resolve_handle-Handed :
    (db : Tables) (u : User) (app : String) (now : ℕ) (table : List GrantRow) (handle : String)
    (rel : Text)
    → All IsNormal table
    → (after : List GrantRow) × (result : Option ResolvedPath) × (resolve_handle db u app now table
          handle rel
        ≡ some (after, result))
      × Handed db u app now table handle rel after result
unfolding resolve_handle
resolve_handle-Handed db u app now table handle rel normal =
    elim (Option-cases (find (is_named handle app u.id) table)) [
      | inl missing ↦ (table, none, rw (missing, resolve_handle), unknown missing)
      | inr (row, found) ↦
          let normal_row : IsNormal row =
            All-find IsNormal (is_named handle app u.id) table normal found in
          elim (Bool-cases (is_refused (joined_with row rel) row.path)) [
            | inl away ↦ (
              table,
              none,
              rw (found, away, resolve_handle),
              outside found (
                  refused_outside (joined_with row rel) row.path (joined_normal row rel) normal_row
                    away),
            )
            | inr within ↦
                let (access, known, _) = path_access-May db u (joined_with row rel) in
                let inside =
                  accepted-IsInside (joined_with row rel) row.path (joined_normal row rel)
                    normal_row within in
                elim (Bool-cases access.read) [
                  | inl can ↦ (
                    _,
                    _,
                    rw (found, within, known, can, resolve_handle),
                    granted found inside known can,
                  )
                  | inr cannot ↦ (
                    _,
                    _,
                    rw (found, within, known, cannot, resolve_handle),
                    unreadable found inside known cannot,
                  )
                ]
          ]
    ]

-- What the user may do at a path bounds what a request may do there.
abbrev pub IsWithin : Tables → User → ResolvedPath → Type 0
IsWithin db u r =
    (access : Access) × (limit : Bool) × (path_access db u r.path ≡ some access)
    × (access.read ≡ true)
    × (r.write ≡ access.write && limit)

abbrev pub AreWithin : Tables → User → Option ResolvedPath → Type 0
AreWithin db u none = Unit
AreWithin db u (some r) = IsWithin db u r

handle_within :
    (db : Tables) (u : User) (app : String) (now : ℕ) (table : List GrantRow) (handle : String)
    (rel : Text)
    → (after : List GrantRow) × (result : Option ResolvedPath) × (resolve_handle db u app now table
          handle rel
        ≡ some (after, result))
      × AreWithin db u result
unfolding resolve_handle
handle_within db u app now table handle rel =
    elim (Option-cases (find (is_named handle app u.id) table)) [
      | inl missing ↦ (table, none, rw (missing, resolve_handle), tt)
      | inr (row, found) ↦
          let (access, known, _) = path_access-May db u (joined_with row rel) in
          elim (Bool-cases (is_refused (joined_with row rel) row.path)) [
            | inl away ↦ (table, none, rw (found, away, resolve_handle), tt)
            | inr within ↦ elim (Bool-cases access.read) [
              | inl can ↦ (
                touch row.id now table,
                some (record {
                  path = joined_with row rel;
                  read = true;
                  write = access.write && is_readwrite row.mode;
                }),
                rw (found, within, known, can, resolve_handle),
                (access, is_readwrite row.mode, known, can, refl),
              )
              | inr cannot ↦ (table, none, rw (found, within, known, cannot, resolve_handle), tt)
            ]
          ]
    ]

abbrev absolute : Text → Text
absolute rel = normalize_virtual (if is_empty rel then slash ∷ [] else rel)

permission_within :
    (db : Tables) (u : User) (may_read may_write : Bool) (rel : Text)
    → (result : Option ResolvedPath) × (resolve_permission db u may_read may_write rel
        ≡ some result)
      × AreWithin db u result
unfolding resolve_permission
permission_within db u false may_write rel = (none, refl, tt)
permission_within db u true may_write rel =
    let (access, known, _) = path_access-May db u (absolute rel) in
    elim (Bool-cases access.read) [
      | inl can ↦ (
        some (record { path = absolute rel; read = true; write = access.write && may_write }),
        rw (known, can, resolve_permission),
        (access, may_write, known, can, refl),
      )
      | inr cannot ↦ (none, rw (known, cannot, resolve_permission), tt)
    ]

-- A request never throws, and an app gets no path, and no right to write one, that the user does not have
-- at that moment, whatever its grants and permissions are.
pub resolve_grant-AreWithin :
    (db : Tables) (u : User) (app : String) (now : ℕ) (table : List GrantRow) (opts : Options)
    → (after : List GrantRow) × (result : Option ResolvedPath) × (resolve_grant db u app now table
          opts
        ≡ some (after, result))
      × AreWithin db u result
unfolding resolve_grant
resolve_grant-AreWithin db u app now table opts =
    let rel = or_empty opts.path in
    let (result, e, within) =
      permission_within db u opts.has_read_permission opts.has_write_permission rel in
    elim (Option-cases opts.handle) [
      | inl missing ↦ (table, result, rw (missing, resolve_grant, without_handle, e), within)
      | inr (handle, given) ↦ elim (Bool-cases (handle == "")) [
        | inl blank ↦ (table, result, rw (given, blank, resolve_grant, without_handle, e), within)
        | inr named ↦
            let (after, got, f, bound) = handle_within db u app now table handle rel in
            (after, got, rw (given, named, f, resolve_grant), bound)
      ]
    ]
