-- ===== src/Files/Resolve/RoundTrip.antt =====
-- `toVirtual` takes the result of `resolveSafe` back to the virtual path.
use mathlib.Core.List.{append-nil, append_assoc}
use opennas.Base.{
  All-find, true, false, ◌||◌, List, [], ◌∷◌, ◌++◌, ◌≡◌, ◌⊎◌, refl, ap, sym, ◌∙◌, inl, inr, ◌==◌,
  nat_eq, list_eq, Bool-cases, Option-cases, some, Text, is_empty, join, starts_with, All,
  All-append, arith, nat_beq_iff, starts_with-append_both, starts_with_comparable, starts_with_self,
  drop-append, beq-append, ==_self, list_beq_iff,
}
use opennas.Shares.{ShareRow, get_share_row_by_name}
use opennas.Files.Paths.{slash, join_args, resolve, normalize_virtual, virtual_segments}
use opennas.Files.Paths.Canonical.{
  IsSafe, segments_of, segments_of-IsSafe, canonical, segments_of-canonical,
}
use opennas.Files.Paths.Normal.{non_empty-split-canonical, normalize_virtual_form}
use opennas.Files.Resolve.Confine.{resolve-canonical, below, canonical-append}
use opennas.Files.Resolve.{ok, Roots, base_of, resolve_safe, find_virtual, to_virtual}
use opennas.Files.Resolve.Safe.{
  real_path, resolve_safe-real_path, base_of-canonical, parent_of, get_share_row_by_name-name,
  append_full,
}

-- A folder and what is below it.
abbrev pub within : Text → Text
within base = base ++ slash ∷ []

-- The folders of the other shares are neither inside the row's folder nor around it.
abbrev pub IsApart : Roots → ShareRow → List ShareRow → Type 0
IsApart roots row = All λ r.
    (r.name ≡ row.name)
    ⊎ ((starts_with (within (base_of roots r)) (within (base_of roots row)) ≡ false)
        × (starts_with (within (base_of roots row)) (within (base_of roots r)) ≡ false))

inside_within :
    (real base : Text)
    → ((real == base) || starts_with real (within base)) ≡ true
    → starts_with (within real) (within base) ≡ true
inside_within real base h = elim (Bool-cases (real == base)) [
  | inl same ↦ rw ((list_beq_iff real base).0 same) (starts_with_self (within base))
  | inr other ↦ starts_with-append_both real (slash ∷ []) (within base) (rw other at h)
]

below-within :
    (base : Text) (segs : List Text)
    → (rest : Text) × (within (base ++ below segs) ≡ within base ++ rest)
below-within base [] = ([], rw (append-nil base) (sym (append-nil (within base))))
below-within base (s ∷ segs) = (join slash (s ∷ segs) ++ slash ∷ [], simp append_assoc)

-- Another share's folder holds nothing of this share.
apart_outside :
    (roots : Roots) (row r : ShareRow) (segs : List Text)
    → (starts_with (within (base_of roots r)) (within (base_of roots row)) ≡ false)
      × (starts_with (within (base_of roots row)) (within (base_of roots r)) ≡ false)
    → (let real = base_of roots row ++ below segs in
        (real == base_of roots r) || starts_with real (within (base_of roots r)))
      ≡ false
apart_outside roots row r segs h =
    elim (Bool-cases (
      let real = base_of roots row ++ below segs in
      (real == base_of roots r) || starts_with real (within (base_of roots r)))) [
        | inr outside ↦ outside
        | inl inside ↦
            let (rest, e) = below-within (base_of roots row) segs in
            let start = inside_within (base_of roots row ++ below segs) (base_of roots r) inside in
            ground (
              arith,
              starts_with_comparable (within (base_of roots row)) rest (within (base_of roots r))
                  (rw e at start),
            )
      ]

starts_with-within : (s t : Text) → starts_with (s ++ slash ∷ t) (within s) ≡ true
unfolding starts_with
starts_with-within [] t = refl
starts_with-within (x ∷ s) t = ground (arith, starts_with-within s t, nat_beq_iff x x)

-- The share's own entry gives the path back.
find_virtual_self :
    (roots : Roots) (row : ShareRow) (rows : List ShareRow) (segs : List Text)
    → All IsSafe segs
    → find_virtual roots (base_of roots row ++ below segs) (row ∷ rows)
      ≡ canonical (row.name ∷ segs)
unfolding find_virtual
find_virtual_self roots row rows [] h =
    rw (append-nil (base_of roots row), ==_self (base_of roots row)) (unfold join in refl)
find_virtual_self roots row rows (s ∷ segs) h =
    rw
      (
        beq-append (base_of roots row) slash (join slash (s ∷ segs)),
        starts_with-within (base_of roots row) (join slash (s ∷ segs)),
        drop-append (base_of roots row) (canonical (s ∷ segs)),
        non_empty-split-canonical (s ∷ segs) h,
      )
      (unfold join in refl)

find_virtual_found :
    (roots : Roots) (row : ShareRow) (segs : List Text)
    → All IsSafe segs
    → (rows : List ShareRow) → get_share_row_by_name rows row.name ≡ some row
    → IsApart roots row rows
    → find_virtual roots (base_of roots row ++ below segs) rows ≡ canonical (row.name ∷ segs)
unfolding find_virtual get_share_row_by_name
find_virtual_found roots row segs h [] found apart = cc
find_virtual_found roots row segs h (r ∷ rows) found apart =
    elim (Bool-cases (r.name == row.name)) [
      | inl same ↦
          let eq : r ≡ row = ground arith in rw eq (find_virtual_self roots row rows segs h)
      | inr other ↦ elim apart.0 [
        | inl eq ↦ ground (arith, list_beq_iff r.name row.name)
        | inr far ↦
            let real = base_of roots row ++ below segs in
            let out = apart_outside roots row r segs far in
            let differs : (real == base_of roots r) ≡ false = ground arith in
            let outside : starts_with real (within (base_of roots r)) ≡ false = ground arith in
            rw (differs, outside) (find_virtual_found roots row segs h rows (ground arith) apart.1)
      ]
    ]

resolve_fixed : (bs : List Text) → All IsSafe bs → resolve (canonical bs) [] ≡ canonical bs
unfolding join_args
resolve_fixed bs h = resolve-canonical (canonical bs) [] ∙ ap canonical (segments_of-canonical bs h)

canonical_fixed :
    (bs segs : List Text)
    → is_empty bs ≡ false
    → All IsSafe bs
    → All IsSafe segs
    → resolve (canonical bs ++ below segs) [] ≡ canonical bs ++ below segs
canonical_fixed bs [] full hb h = rw (append-nil (canonical bs)) (resolve_fixed bs hb)
canonical_fixed bs (s ∷ segs) full hb h =
    rw (← canonical-append bs s segs full)
      (resolve_fixed (bs ++ s ∷ segs) (All-append IsSafe bs (s ∷ segs) hb h))

-- A real path in a share is canonical, so `resolve` leaves it alone.
resolve_real :
    (roots : Roots) (row : ShareRow) (segs : List Text)
    → IsSafe row.name
    → All IsSafe segs
    → resolve (base_of roots row ++ below segs) [] ≡ base_of roots row ++ below segs
resolve_real roots row segs hn h =
    let parent = segments_of (parent_of roots row) in
    rw (base_of-canonical roots row hn) (
      canonical_fixed (parent ++ row.name ∷ []) segs (append_full parent row.name)
        (All-append IsSafe parent (row.name ∷ []) (segments_of-IsSafe (parent_of roots row))
          (hn, tt))
        h)

-- Every two shares have folders of which neither holds the other.
abbrev pub AreApart : Roots → List ShareRow → Type 0
AreApart roots rows = All (λ row. IsApart roots row rows) rows

real_path-virtual :
    (roots : Roots) (rows : List ShareRow) (segs : List Text) (real : Text)
    → AreApart roots rows
    → All IsSafe segs
    → real_path roots rows segs ≡ ok real
    → to_virtual roots rows real ≡ canonical segs
real_path-virtual roots rows [] real apart h e = cc
real_path-virtual roots rows (name ∷ segs) real apart h e =
    elim (Option-cases (get_share_row_by_name rows name)) [
      | inl missing ↦ ground arith
      | inr (row, found) ↦
          let same = get_share_row_by_name-name rows name found in
          let eq : base_of roots row ++ below segs ≡ real = ground arith in
          rw (← eq, ← same)
            (unfold to_virtual in
              rw (resolve_real roots row segs (rw same h.0) h.1) (
                find_virtual_found roots row segs h.1 rows
                  (ap (get_share_row_by_name rows) same ∙ found)
                  (All-find (λ r. IsApart roots r rows) (λ r. r.name == name) rows apart
                    (unfold get_share_row_by_name in found))))
    ]

-- What `resolveSafe` makes of a path, `toVirtual` makes the path's normal form again, where no share's
-- folder lies in another's.
pub to_virtual-resolve_safe :
    (roots : Roots) (rows : List ShareRow) (path real : Text)
    → AreApart roots rows
    → resolve_safe roots rows path ≡ ok real
    → to_virtual roots rows real ≡ normalize_virtual path
to_virtual-resolve_safe roots rows path real apart e =
    let (form, safe) = resolve_safe-real_path roots rows path in
    rw ((normalize_virtual_form path).0)
      (real_path-virtual roots rows (virtual_segments path) real apart safe (ground arith))
