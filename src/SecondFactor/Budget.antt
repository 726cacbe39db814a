-- ===== src/SecondFactor/Budget.antt =====
-- How many wrong codes a ticket takes, and what a refused sign-in leaves.
use opennas.Base.{
  ℕ, zero, suc, ◌+◌, ◌-◌, String, ◌≡◌, refl, ap, ◌∙◌, inl, inr, true, false, ◌&&◌, none, some, List,
  [], ◌∷◌, ◌++◌, arith, ltb, leb, if◌then◌else◌, Bool-cases, nat_eq, string_eq, list_eq, ==_self,
  find, All, find-none,
}
use opennas.SecondFactor.Store.{
  TicketRow, has_id, ticket_user, ticket_max_attempts, ticket_ttl_ms, is_spent, create_mfa_ticket,
  count_attempt, peek_mfa_ticket, fail_mfa_ticket,
}

-- A ticket after wrong codes.
abbrev pub failed : (String → String) → String → ℕ → List TicketRow → List TicketRow
failed hash x zero table = table
failed hash x (suc n) table = fail_mfa_ticket hash (failed hash x n table) x

abbrev row_after : String → String → ℕ → ℕ → List TicketRow
row_after id user now n =
    if ltb n ticket_max_attempts
    then record { id = id; user_id = user; created_at = now; attempts = n } ∷ []
    else []

fail-append :
    (hash : String → String) (x : String) (table rest : List TicketRow)
    → All (λ r. has_id (hash x) r ≡ false) table
    → fail_mfa_ticket hash (table ++ rest) x ≡ table ++ fail_mfa_ticket hash rest x
unfolding fail_mfa_ticket count_attempt
fail-append hash x [] rest h = refl
fail-append hash x (r ∷ table) rest (h, hs) =
    rw (h, h) (ap (λ z. r ∷ z) (fail-append hash x table rest hs))

fail-row_after :
    (hash : String → String) (x user : String) (now n : ℕ)
    → fail_mfa_ticket hash (row_after (hash x) user now n) x ≡ row_after (hash x) user now (suc n)
unfolding fail_mfa_ticket count_attempt
fail-row_after hash x user now n = elim (Bool-cases (ltb n 5)) [
  | inl few ↦
      let me = ==_self (hash x) in
      let single : ℕ → List TicketRow =
        λ k. record { id = hash x; user_id = user; created_at = now; attempts = k } ∷ [] in
      let counted : (single (n + 1)) ≡ single (suc n) = ap single (omega arith) in
      elim (Bool-cases (ltb (suc n) 5)) [
        | inl left ↦
            let below : leb 5 (n + 1) ≡ false = ground arith in
            rw few (rw me (rw (me, below, left, row_after) counted))
        | inr last ↦
            let full : leb 5 (n + 1) ≡ true = ground arith in
            rw few (rw me (rw (me, full, last, row_after)))
      ]
  | inr many ↦ let over : ltb (suc n) 5 ≡ false = ground arith in rw (many, over, row_after)
]

failed-create :
    (hash : String → String) (x user : String) (now n : ℕ) (table : List TicketRow)
    → All (λ r. has_id (hash x) r ≡ false) table
    → failed hash x n (create_mfa_ticket hash now table x user)
      ≡ table ++ row_after (hash x) user now n
unfolding create_mfa_ticket
failed-create hash x user now zero table h = refl
failed-create hash x user now (suc n) table h =
    ap (λ z. fail_mfa_ticket hash z x) (failed-create hash x user now n table h)
    ∙ fail-append hash x table _ h
    ∙ ap (λ z. table ++ z) (fail-row_after hash x user now n)

find-append :
    (id : String) (table rest : List TicketRow)
    → All (λ r. has_id id r ≡ false) table
    → find (has_id id) (table ++ rest) ≡ find (has_id id) rest
find-append id [] rest h = refl
find-append id (r ∷ table) rest (h, hs) = rw h (find-append id table rest hs)

ticket-row_after :
    (id user : String) (now later n : ℕ)
    → ticket_user later (find (has_id id) (row_after id user now n))
      ≡ (if ltb n ticket_max_attempts && leb (later - now) ticket_ttl_ms then some user else none)
ticket-row_after id user now later n = elim (Bool-cases (ltb n 5)) [
  | inl few ↦
      let me = ==_self id in
      elim (Bool-cases (leb (later - now) 300000)) [
        | inl soon ↦
            let young : is_spent later
                  (record { id = id; user_id = user; created_at = now; attempts = n })
                ≡ false =
              ground arith in
            rw few (rw (me, young, soon))
        | inr late ↦
            let old : is_spent later
                  (record { id = id; user_id = user; created_at = now; attempts = n })
                ≡ true =
              ground arith in
            rw few (rw (me, old, late))
      ]
  | inr many ↦ rw many
]

-- A new ticket names its user for five minutes and until the fifth wrong code.
pub peek_mfa_ticket-failed :
    (hash : String → String) (x user : String) (now later n : ℕ) (table : List TicketRow)
    → find (has_id (hash x)) table ≡ none
    → (peek_mfa_ticket hash later (failed hash x n (create_mfa_ticket hash now table x user)) x).1
      ≡ (if ltb n ticket_max_attempts && leb (later - now) ticket_ttl_ms then some user else none)
unfolding peek_mfa_ticket
peek_mfa_ticket-failed hash x user now later n table h =
    let foreign = find-none (has_id (hash x)) table h in
    ap (λ z. ticket_user later (find (has_id (hash x)) z))
      (failed-create hash x user now n table foreign)
    ∙ ap (ticket_user later) (find-append (hash x) table _ foreign)
    ∙ ticket-row_after (hash x) user now later n
