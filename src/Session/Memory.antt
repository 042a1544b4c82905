-- ===== src/Session/Memory.antt =====
-- What a session remembers of its purchases: how much, and for how long.
use razoragent_mesh.Prelude.{
  ◌+◌, ◌-◌, ◌≤◌, ◌≡◌, ◌≢◌, refl, sym, ◌∙◌, List, [], ◌∷◌, Option, none, some, or_else, ◌⊎◌, inl,
  inr, arith, length, All, leb, Bool-cases,
}
use razoragent_mesh.Prelude.Text.{Text, text_eq, text_eq_iff}
use razoragent_mesh.Prelude.Dict.{Dict, lookup, insert, erase, lookup-insert_self, lookup-insert_ne}
use razoragent_mesh.Session.{
  SessionRegistry, prior_purchase, find_prior_purchase, drop_oldest, remember,
  record_settled_purchase,
}

length-insert : {V : Type 0} (k : Text) (v : V) (d : Dict V) → length (insert k v d) ≤ length d + 1
unfolding insert
length-insert k v [] = omega arith
length-insert k v ((j, w) ∷ d) = ground (arith, length-insert k v d)

length-erase : {V : Type 0} (k : Text) (d : Dict V) → length (erase k d) ≤ length d
unfolding erase
length-erase k [] = omega arith
length-erase k ((j, w) ∷ d) = ground (arith, length-erase k d)

drop_oldest-length : (d : Dict Text) → length (drop_oldest d) ≤ length d - 1
unfolding drop_oldest erase
drop_oldest-length [] = omega arith
drop_oldest-length ((j, w) ∷ d) = ground (arith, length-erase j d, text_eq_iff j j)

remember-length :
    (k payment : Text) (d : Dict Text) → length d ≤ 64 → length (remember k payment d) ≤ 64
unfolding remember
remember-length k payment d h = elim (Bool-cases (leb 64 (length d))) [
  | inl e ↦ rw e (omega (arith, length-insert k payment (drop_oldest d), drop_oldest-length d, h))
  | inr e ↦ rw e (ground (arith, length-insert k payment d))
]

-- Every session remembers at most 64 purchases.
abbrev pub IsBounded : SessionRegistry → Type 0
IsBounded s = All (λ e. length e.1 ≤ 64) s.settled_purchases_by_session

All-insert :
    {V : Type 0} (P : V → Type 0) (k : Text) (v : V) (d : Dict V)
    → P v
    → All (λ e. P e.1) d
    → All (λ e. P e.1) (insert k v d)
unfolding insert
All-insert P k v [] p h = (p, tt)
All-insert P k v ((j, w) ∷ d) p (q, h) = elim (Bool-cases (text_eq j k)) [
  | inl e ↦ rw e (p, h)
  | inr e ↦ rw e (q, All-insert P k v d p h)
]

All-lookup :
    {V : Type 0} (P : V → Type 0) (k : Text) (d : Dict V) (w : V)
    → P w
    → All (λ e. P e.1) d
    → P (or_else (lookup k d) w)
unfolding lookup
All-lookup P k [] w p h = p
All-lookup P k ((j, v) ∷ d) w p (q, h) = elim (Bool-cases (text_eq j k)) [
  | inl e ↦ rw e q
  | inr e ↦ rw e (All-lookup P k d w p h)
]

-- A purchase, to the session that made it.
abbrev pub Purchase : Type 0
Purchase = Text × Text × Text

abbrev pub record_all : List Purchase → SessionRegistry → SessionRegistry
record_all [] s = s
record_all ((session, cart_key, payment) ∷ ps) s =
    record_all ps (record_settled_purchase session cart_key payment s)

record_settled_purchase-IsBounded :
    (session k payment : Text) (s : SessionRegistry)
    → IsBounded s
    → IsBounded (record_settled_purchase session k payment s)
unfolding record_settled_purchase
record_settled_purchase-IsBounded session k payment s h =
    let d = s.settled_purchases_by_session in
    All-insert (λ (m : Dict Text). length m ≤ 64) session _ d
      (remember-length k payment (or_else (lookup session d) [])
        (All-lookup (λ (m : Dict Text). length m ≤ 64) session d [] (omega arith) h))
      h

-- However many purchases settle, in however many sessions, no session remembers more than 64.
pub record_all-IsBounded :
    (ps : List Purchase) (s : SessionRegistry) → IsBounded s → IsBounded (record_all ps s)
record_all-IsBounded [] s h = h
record_all-IsBounded ((session, k, payment) ∷ ps) s h =
    record_all-IsBounded ps (record_settled_purchase session k payment s)
      (record_settled_purchase-IsBounded session k payment s h)

prior_purchase-or_else :
    (o : Option (Dict Text)) (j : Text) → prior_purchase o j ≡ lookup j (or_else o [])
unfolding prior_purchase lookup
prior_purchase-or_else none j = refl
prior_purchase-or_else (some d) j = refl

found_elsewhere :
    (session asker k j payment : Text) (s : SessionRegistry)
    → session ≢ asker
    → find_prior_purchase asker j (record_settled_purchase session k payment s)
      ≡ find_prior_purchase asker j s
unfolding find_prior_purchase record_settled_purchase
found_elsewhere session asker k j payment s ne =
    rw (lookup-insert_ne session asker _ s.settled_purchases_by_session ne) refl

found_own :
    (session k j payment : Text) (s : SessionRegistry)
    → find_prior_purchase session j (record_settled_purchase session k payment s)
      ≡ lookup j (remember k payment (or_else (lookup session s.settled_purchases_by_session) []))
unfolding find_prior_purchase record_settled_purchase prior_purchase
found_own session k j payment s =
    rw (lookup-insert_self session _ s.settled_purchases_by_session) refl

remember_other :
    (k j payment : Text) (d : Dict Text)
    → k ≢ j
    → (lookup j (remember k payment d) ≡ lookup j d) ⊎ (64 ≤ length d)
unfolding remember
remember_other k j payment d ne = elim (Bool-cases (leb 64 (length d))) [
  | inl e ↦ inr (ground arith)
  | inr e ↦ rw e (inl (lookup-insert_ne k j payment d ne))
]

remember_self : (k payment : Text) (d : Dict Text) → lookup k (remember k payment d) ≡ some payment
unfolding remember
remember_self k payment d = lookup-insert_self k payment _

pub find_prior_purchase-record_self :
    (session k payment : Text) (s : SessionRegistry)
    → find_prior_purchase session k (record_settled_purchase session k payment s) ≡ some payment
find_prior_purchase-record_self session k payment s =
    found_own session k k payment s ∙ remember_self k payment _

own-find :
    (session k j payment : Text) (s : SessionRegistry)
    → let found = find_prior_purchase session j (record_settled_purchase session k payment s) in
      ((k ≡ j) × (found ≡ some payment))
      ⊎ ((k ≢ j) × (found ≡ find_prior_purchase session j s))
      ⊎ ((k ≢ j) × (64 ≤ length (or_else (lookup session s.settled_purchases_by_session) [])))
unfolding find_prior_purchase
own-find session k j payment s =
    let d = or_else (lookup session s.settled_purchases_by_session) [] in
    elim (Bool-cases (text_eq k j)) [
      | inl e ↦
          let same = (text_eq_iff k j).0 e in
          inl (same, found_own session k j payment s ∙ rw (sym same) (remember_self k payment d))
      | inr e ↦
          let ne : k ≢ j = λ q. cc (e, (text_eq_iff k j).1 q) in
          elim (remember_other k j payment d ne) [
            | inl kept ↦ inr (
                inl (
                  ne,
                  found_own session k j payment s
                      ∙ kept
                      ∙ sym (
                          prior_purchase-or_else (lookup session s.settled_purchases_by_session) j),
                ))
            | inr full ↦ inr (inr (ne, full))
          ]
    ]

-- Asking after a purchase has settled: the session finds the payment of that purchase; another
-- session finds what it found before; and so does the session itself for any other purchase, as
-- long as it remembers fewer than 64. Nothing is said of the session itself for another purchase
-- when it remembered 64.
pub find_prior_purchase-record :
    (session asker k j payment : Text) (s : SessionRegistry)
    → let found = find_prior_purchase asker j (record_settled_purchase session k payment s) in
      ((session ≡ asker) × (k ≡ j) × (found ≡ some payment))
      ⊎ ((session ≢ asker) × (found ≡ find_prior_purchase asker j s))
      ⊎ ((session ≡ asker) × (k ≢ j) × (found ≡ find_prior_purchase asker j s))
      ⊎ ((session ≡ asker)
          × (k ≢ j)
          × (64 ≤ length (or_else (lookup session s.settled_purchases_by_session) [])))
find_prior_purchase-record session asker k j payment s = elim (Bool-cases (text_eq session asker)) [
  | inl e ↦
      let same = (text_eq_iff session asker).0 e in
      elim (own-find session k j payment s) [
        | inl (keys, found) ↦ inl (same, keys, rw (sym same) found)
        | inr (inl (ne, kept)) ↦ inr (inr (inl (same, ne, rw (sym same) kept)))
        | inr (inr (ne, full)) ↦ inr (inr (inr (same, ne, full)))
      ]
  | inr e ↦
      let ne : session ≢ asker = λ q. cc (e, (text_eq_iff session asker).1 q) in
      inr (inl (ne, found_elsewhere session asker k j payment s ne))
]
