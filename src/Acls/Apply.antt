-- ===== src/Acls/Apply.antt =====
-- What `applyFolderAcls` answers for a path.
use mathlib.Core.List.{reverse, map-map, append_assoc}
use opennas.Base.{
  ℕ, zero, suc, String, ◌≡◌, refl, sym, ap, ◌∙◌, true, false, ◌&&◌, not, some, List, [], ◌∷◌, ◌++◌,
  map, arith, ◌==◌, nat_eq, string_eq, list_eq, ==_self, length, keep, any, All, Text, is_empty,
  split, join, non_empty, take, count_up, Free, split-join, split-Free,
}
use opennas.Shares.{AccessLevel, is_none}
use opennas.Acls.{
  AclRow, Subject, decide_step, walk, apply_rules, in_chain, apply_folder_acls, normalize_acl_path,
  ancestors_of, dot, dotdot,
}
use opennas.Acls.Decision.{Decides, walk-Decides, Decides.unruled as unruled}

-- The folders on the way down: the non-empty starts of a list of segments, the shortest first.
abbrev pub prefixes : List Text → List (List Text)
prefixes [] = []
prefixes (s ∷ segs) = (s ∷ []) ∷ map (λ l. s ∷ l) (prefixes segs)

-- The segments of a rule's path.
abbrev pub acl_parts : Text → List Text
acl_parts input = keep (λ p. not (is_empty p) && not (p == dot)) (split b'/' input)

map-count_up {ℓ} :
    {B : Type ℓ} (f : ℕ → B) (i k : ℕ)
    → map f (count_up (suc i) k) ≡ map (λ j. f (suc j)) (count_up i k)
map-count_up f i zero = refl
map-count_up f i (suc k) = ap (λ l. f (suc i) ∷ l) (map-count_up f (suc i) k)

slices :
    (g : List Text → Text) (segs : List Text)
    → map (λ i. g (take (suc i) segs)) (count_up 0 (length segs)) ≡ map g (prefixes segs)
slices g [] = refl
slices g (s ∷ segs) =
    ap (λ l. g (s ∷ []) ∷ l)
      (map-count_up (λ i. g (take (suc i) (s ∷ segs))) 0 (length segs)
        ∙ slices (λ l. g (s ∷ l)) segs
        ∙ sym (map-map g (λ l. s ∷ l) (prefixes segs)))

abbrev IsPart : Text → Type 0
IsPart w = (is_empty w ≡ false) × Free b'/' w

parts_kept :
    (ws : List Text)
    → All (Free b'/') ws
    → All IsPart (keep (λ p. not (is_empty p) && not (p == dot)) ws)
parts_kept [] h = tt
parts_kept (w ∷ ws) h = ground (arith, parts_kept ws h.1)

non_empty_parts : (ws : List Text) → All IsPart ws → non_empty ws ≡ ws
non_empty_parts [] h = refl
non_empty_parts (w ∷ ws) h = ground (arith, non_empty_parts ws h.1)

parts-Free : (ws : List Text) → All IsPart ws → All (Free b'/') ws
parts-Free [] h = tt
parts-Free (w ∷ ws) h = (h.0.1, parts-Free ws h.1)

ancestors_of-join :
    (ws : List Text) → All IsPart ws → ancestors_of (join b'/' ws) ≡ map (join b'/') (prefixes ws)
unfolding ancestors_of
ancestors_of-join [] h = unfold join split in refl
ancestors_of-join (w ∷ ws) h =
    rw (split-join b'/' w ws h.0.1 (parts-Free ws h.1), non_empty_parts (w ∷ ws) h)
      (slices (join b'/') (w ∷ ws))

any_self : (p : Text) (ps qs : List Text) → any (λ q. p == q) (qs ++ p ∷ ps) ≡ true
any_self p ps [] = rw (==_self p)
any_self p ps (q ∷ qs) = ground (arith, any_self p ps qs)

-- Every folder of the chain is selected by the query.
chain_known :
    (done steps : List Text) → All (λ step. any (λ p. step == p) (done ++ steps) ≡ true) steps
chain_known done [] = tt
chain_known done (step ∷ steps) = (
  any_self step steps done,
  rw (append_assoc done (step ∷ []) steps) at (chain_known (done ++ step ∷ []) steps),
)

walk_empty :
    (who : Subject) (level : AccessLevel) (steps : List Text) → walk who [] level steps ≡ level
unfolding walk decide_step
walk_empty who level [] = refl
walk_empty who level (step ∷ steps) = walk_empty who level steps

apply_rules-walk :
    (who : Subject) (rows : List AclRow) (level : AccessLevel) (chain : List Text)
    → apply_rules who rows level chain ≡ walk who rows level chain
unfolding apply_rules
apply_rules-walk who [] level chain = sym (walk_empty who level chain)
apply_rules-walk who (r ∷ rows) level chain = refl

-- The level for a non-empty path, which the query and the loop give.
level_of : List AclRow → String → Subject → AccessLevel → List Text → AccessLevel
level_of table share who own chain = apply_rules who (keep (in_chain share chain) table) own chain

level_of-Decides :
    (table : List AclRow) (share : String) (who : Subject) (own : AccessLevel) (chain : List Text)
    → Decides who table share own (reverse chain) (level_of table share who own chain)
unfolding level_of
level_of-Decides table share who own chain =
    rw (apply_rules-walk who (keep (in_chain share chain) table) own chain)
      (walk-Decides who table share chain own chain [] own (chain_known [] chain) unruled)

normalize_acl_path_eq :
    (input : Text)
    → any (λ p. p == dotdot) (acl_parts input) ≡ false
    → normalize_acl_path input ≡ some (join b'/' (acl_parts input))
unfolding normalize_acl_path
normalize_acl_path_eq input h = rw h

join_parts_full :
    (w : Text) (ws : List Text) → is_empty w ≡ false → is_empty (join b'/' (w ∷ ws)) ≡ false
unfolding join
join_parts_full w [] h = h
join_parts_full [] (v ∷ ws) h = cc
join_parts_full (c ∷ w) (v ∷ ws) h = refl

apply_parts :
    (table : List AclRow) (share : String) (rel_path : Text) (who : Subject) (own : AccessLevel)
    (parts : List Text)
    → is_none own ≡ false
    → normalize_acl_path rel_path ≡ some (join b'/' parts)
    → All IsPart parts
    → apply_folder_acls table share rel_path who own
      ≡ some (level_of table share who own (map (join b'/') (prefixes parts)))
unfolding apply_folder_acls level_of
apply_parts table share rel_path who own [] is_open e h =
    rw (is_open, e, apply_folder_acls)
      (unfold join walk in rw (apply_rules-walk who (keep (in_chain share []) table) own []))
apply_parts table share rel_path who own (w ∷ ws) is_open e h =
    rw (is_open, e, apply_folder_acls)
      (rw (join_parts_full w ws h.0.0, ancestors_of-join (w ∷ ws) h))

-- Below a share that is open to the user, the folder rules on the way down to the path decide: the
-- deepest folder that has a rule for the user or for one of the user's groups gives the level, a rule
-- for the user before those for groups, the most restrictive of these; with no rule the share's own
-- level stays. The call never throws for a path without "..".
pub apply_folder_acls-Decides :
    (table : List AclRow) (share : String) (rel_path : Text) (who : Subject) (own : AccessLevel)
    → is_none own ≡ false
    → any (λ p. p == dotdot) (acl_parts rel_path) ≡ false
    → (level : AccessLevel) × (apply_folder_acls table share rel_path who own ≡ some level)
      × Decides who table share own
          (reverse (map (join b'/') (prefixes (acl_parts rel_path))))
          level
apply_folder_acls-Decides table share rel_path who own is_open inside =
    let parts = acl_parts rel_path in
    let chain = map (join b'/') (prefixes parts) in
    (
      level_of table share who own chain,
      apply_parts table share rel_path who own parts is_open (normalize_acl_path_eq rel_path inside)
          (parts_kept (split b'/' rel_path) (split-Free b'/' rel_path)),
      level_of-Decides table share who own chain,
    )
