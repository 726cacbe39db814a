-- ===== src/AppGrants/Confine.antt =====
-- What an app reaches through `resolveGrant`.
use mathlib.Core.List.{append-nil, append_assoc}
use opennas.Base.{
  clash, ◌≡◌, refl, sym, ap, ◌∙◌, inl, inr, true, false, ◌&&◌, not, List, [], ◌∷◌, ◌++◌, arith,
  Bool-cases, ◌==◌, nat_eq, string_eq, list_eq, ==_self, list_beq, list_beq_iff, All, Text,
  is_empty, split, join, starts_with, split-append, split-join, join-append, starts_with-append,
  starts_with_rest,
}
use opennas.Files.Paths.{slash}
use opennas.Files.Paths.Canonical.{IsSafe, canonical, safe-Free, segments_of, segments_of-canonical}
use opennas.Files.Access.Granted.{root_differs}
use opennas.AppGrants.{root_of}

split-canonical :
    (s : Text) (segs : List Text)
    → All IsSafe (s ∷ segs)
    → split slash (canonical (s ∷ segs)) ≡ [] ∷ s ∷ segs
split-canonical s segs h =
    split-append slash [] (join slash (s ∷ segs))
    ∙ (unfold split in ap (λ l. [] ∷ l) (split-join slash s segs h.0.3 (safe-Free segs h.1)))

split_below :
    (a : Text) (above : List Text) (below rest : Text)
    → All IsSafe (a ∷ above)
    → below ≡ (canonical (a ∷ above) ++ slash ∷ []) ++ rest
    → split slash below ≡ ([] ∷ a ∷ above) ++ split slash rest
split_below a above below rest h e =
    ap (split slash) (e ∙ append_assoc (canonical (a ∷ above)) (slash ∷ []) rest)
    ∙ split-append slash (canonical (a ∷ above)) rest
    ∙ ap (λ l. l ++ split slash rest) (split-canonical a above h)

split_root : split slash (canonical []) ≡ [] ∷ [] ∷ []
split_root = unfold split join in refl

-- A canonical path below another has the other's segments first.
segments_below :
    (above below : List Text)
    → All IsSafe above
    → All IsSafe below
    → (rest : Text) → canonical below ≡ (canonical above ++ slash ∷ []) ++ rest
    → (more : List Text) × (below ≡ above ++ more)
segments_below [] below ha hb rest e = (below, refl)
segments_below (a ∷ above) [] ha hb rest e =
    let parts = sym split_root ∙ split_below a above (canonical []) rest ha e in
    let empty : [] ≡ a = cc in absurd (clash (ha.0.0) (ap is_empty (sym empty)))
segments_below (a ∷ above) (b ∷ below) ha hb rest e = (
  split slash rest,
  cc (sym (split-canonical b below hb) ∙ split_below a above (canonical (b ∷ below)) rest ha e),
)

-- The test of `resolveGrant` for a joined path keeps it in the granted folder.
pub pinned :
    (joined root : List Text)
    → All IsSafe joined
    → All IsSafe root
    → (not (canonical joined == canonical root)
        && not (starts_with (canonical joined) (root_of (canonical root))))
      ≡ false
    → (more : List Text) × (joined ≡ root ++ more)
pinned joined [] hj hr h = (joined, refl)
pinned joined (r ∷ root) hj hr h = elim (Bool-cases (canonical joined == canonical (r ∷ root))) [
  | inl same ↦ (
    [],
    sym (segments_of-canonical joined hj)
        ∙ ap segments_of ((list_beq_iff (canonical joined) (canonical (r ∷ root))).0 same)
        ∙ segments_of-canonical (r ∷ root) hr
        ∙ sym (append-nil (r ∷ root)),
  )
  | inr other ↦
      let (rest, e) =
        starts_with_rest (canonical joined) (root_of (canonical (r ∷ root))) (ground arith) in
      segments_below (r ∷ root) joined hr hj rest (rw (root_differs r root hr.0) at e)
]

below_starts :
    (r : Text) (root : List Text) (m : Text) (more : List Text)
    → IsSafe r
    → starts_with (canonical ((r ∷ root) ++ m ∷ more)) (root_of (canonical (r ∷ root))) ≡ true
below_starts r root m more h =
    rw
      (
        root_differs r root h,
        join-append slash (r ∷ root) m more refl,
        sym (append_assoc (canonical (r ∷ root)) (slash ∷ []) (join slash (m ∷ more))),
      )
      (starts_with-append (canonical (r ∷ root) ++ slash ∷ []) (join slash (m ∷ more)))

-- Every path in a granted folder passes the test of `resolveGrant`.
pub inside_accepted :
    (root more : List Text)
    → All IsSafe root
    → (not (canonical (root ++ more) == canonical root)
        && not (starts_with (canonical (root ++ more)) (root_of (canonical root))))
      ≡ false
inside_accepted [] [] h = ground (arith, ==_self {A = Text} (canonical []))
inside_accepted [] (m ∷ more) h =
    let low : starts_with (canonical (m ∷ more)) (root_of (canonical [])) ≡ true =
      unfold starts_with join list_beq in refl in
    ground (arith)
inside_accepted (r ∷ root) [] h =
    rw (append-nil (r ∷ root))
      (let same = ==_self {A = Text} (canonical (r ∷ root)) in ground (arith))
inside_accepted (r ∷ root) (m ∷ more) h = let low = below_starts r root m more h.0 in ground (arith)
