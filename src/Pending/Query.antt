-- ===== src/Pending/Query.antt =====
-- What the hook makes of the query of a request.
use mathlib.Core.Path.{subst}
use opennas.Base.{
  ℕ, ◌≡◌, refl, sym, ap, ◌∙◌, inl, inr, Option, none, some, [], ◌∷◌, ◌++◌, arith, nat_beq_iff,
  Bool-cases, nat_eq, string_eq, list_eq, Text, codes, has_unit, starts_with, drop, Free,
  split_single, split-append, starts_with_rest,
}
use opennas.Pending.{PendingState, question_mark, without_prefix, path_of, pending_gate}

starts_before : (c : ℕ) (u q p : Text) → Free c p → starts_with (u ++ c ∷ q) p ≡ starts_with u p
unfolding starts_with has_unit
starts_before c u q [] h = refl
starts_before c [] q (y ∷ p) h = ground (arith, nat_beq_iff c y, nat_beq_iff y c)
starts_before c (x ∷ u) q (y ∷ p) h =
    let rest = starts_before c u q p (ground arith) in ground arith

Free-after :
    (url rest : Text)
    → Free question_mark url
    → url ≡ codes "/api" ++ rest
    → Free question_mark rest
unfolding has_unit
Free-after url rest h e = let whole = subst (Free question_mark) e h in ground (arith, whole)

prefix_query :
    (url query : Text)
    → Free question_mark url
    → (without_prefix (url ++ question_mark ∷ query) ≡ without_prefix url ++ question_mark ∷ query)
      × Free question_mark (without_prefix url)
unfolding without_prefix
prefix_query url query h =
    let api_free : Free question_mark (codes "/api") = unfold has_unit in refl in
    let same = starts_before question_mark url query (codes "/api") api_free in
    elim (Bool-cases (starts_with url (codes "/api"))) [
      | inl api ↦
          let (rest, e) = starts_with_rest url (codes "/api") api in
          let cut = ap (λ u. drop 4 (u ++ question_mark ∷ query)) e in
          let cut_alone = ap (drop 4) e in
          (
            rw (same, api) (cut ∙ ap (λ u. u ++ question_mark ∷ query) (sym cut_alone)),
            rw (api, cut_alone) (Free-after url rest h e),
          )
      | inr other ↦ (rw (same, other), rw other h)
    ]

path_query :
    (url query : Text)
    → Free question_mark url
    → path_of (url ++ question_mark ∷ query) ≡ path_of url
unfolding path_of
path_query url query h =
    let (same, free) = prefix_query url query h in
    let alone = split_single question_mark (without_prefix url) free in
    rw (same, split-append question_mark (without_prefix url) query, alone)

-- A query cannot open a path: the hook answers a request with one as it does the path alone.
pending_gate_query :
    (state : Option PendingState) (url query : Text)
    → Free question_mark url
    → pending_gate state (url ++ question_mark ∷ query) ≡ pending_gate state url
unfolding pending_gate
pending_gate_query none url query h = refl
pending_gate_query (some s) url query h = rw (path_query url query h)
