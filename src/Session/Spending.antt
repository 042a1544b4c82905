-- ===== src/Session/Spending.antt =====
-- Ceilings and spending of a session, over any sequence of declarations, payments and purchases.
use razoragent_mesh.Prelude.{
  ℕ, ◌+◌, ◌≤◌, ◌≡◌, ◌≢◌, refl, sym, ◌∙◌, min, List, [], ◌∷◌, Option, none, some, or_else, ◌⊎◌, inl,
  inr, Bool-cases, arith, if◌then◌else◌, leb,
}
use razoragent_mesh.Prelude.Text.{Text, text_eq, text_eq_iff}
use razoragent_mesh.Prelude.Dict.{lookup, lookup-insert}
use razoragent_mesh.Session.{
  SessionRegistry, lowered, declare_session_ceiling, SessionSpendState, spend_state,
  read_session_spend, record_session_spend, record_settled_purchase,
}

-- A call on the registry, for some session.
pub data Event : Type 0 where
  declare : (session : Text) → ℕ → Event
  spend : (session : Text) → ℕ → Event
  purchase : (session cart_key payment : Text) → Event

unfoldable pub step : Event → SessionRegistry → SessionRegistry
step (declare session budget) s = declare_session_ceiling session budget s
step (spend session paise) s = record_session_spend session paise s
step (purchase session cart_key payment) s = record_settled_purchase session cart_key payment s

unfoldable pub run : List Event → SessionRegistry → SessionRegistry
run [] s = s
run (e ∷ es) s = run es (step e s)

-- A budget under what bounds it so far, if anything does.
abbrev pub at_most : Option ℕ → ℕ → ℕ
at_most none budget = budget
at_most (some bound) budget = if leb bound budget then bound else budget

-- The lowest of a ceiling and the budgets that the events declare for session `k`.
abbrev pub lowest : Text → List Event → Option ℕ → Option ℕ
lowest k [] c = c
lowest k (declare session budget ∷ es) c =
    lowest k es (if text_eq session k then some (at_most c budget) else c)
lowest k (spend session paise ∷ es) c = lowest k es c
lowest k (purchase session cart_key payment ∷ es) c = lowest k es c

-- What the events spend in session `k`.
abbrev pub total : Text → List Event → ℕ
total k [] = 0
total k (declare session budget ∷ es) = total k es
total k (spend session paise ∷ es) = (if text_eq session k then paise else 0) + total k es
total k (purchase session cart_key payment ∷ es) = total k es

abbrev ceiling_of : Text → SessionRegistry → Option ℕ
ceiling_of k s = lookup k s.session_ceiling_paise

abbrev spent_of : Text → SessionRegistry → ℕ
spent_of k s = or_else (lookup k s.session_spent_paise) 0

lowered-at_most : (o : Option ℕ) (budget : ℕ) → lowered o budget ≡ at_most o budget
unfolding lowered
lowered-at_most none budget = refl
lowered-at_most (some c) budget = ground arith

declare-ceiling :
    (k session : Text) (budget : ℕ) (s : SessionRegistry)
    → ceiling_of k (declare_session_ceiling session budget s)
      ≡ (if text_eq session k then some (lowered (ceiling_of k s) budget) else ceiling_of k s)
unfolding declare_session_ceiling
declare-ceiling k session budget s = ground (
  arith,
  lookup-insert session k (lowered (lookup session s.session_ceiling_paise) budget)
      s.session_ceiling_paise,
  text_eq_iff session k,
)

spend-spent :
    (k session : Text) (paise : ℕ) (s : SessionRegistry)
    → spent_of k (record_session_spend session paise s)
      ≡ spent_of k s + (if text_eq session k then paise else 0)
unfolding record_session_spend
spend-spent k session paise s = ground (
  arith,
  lookup-insert session k (or_else (lookup session s.session_spent_paise) 0 + paise)
      s.session_spent_paise,
  text_eq_iff session k,
)

run-ceiling :
    (k : Text) (es : List Event) (s : SessionRegistry)
    → ceiling_of k (run es s) ≡ lowest k es (ceiling_of k s)
unfolding run step record_session_spend record_settled_purchase
run-ceiling k [] s = refl
run-ceiling k (declare session budget ∷ es) s =
    rw (run-ceiling k es (declare_session_ceiling session budget s))
      (rw (declare-ceiling k session budget s, lowered-at_most (ceiling_of k s) budget) refl)
run-ceiling k (spend session paise ∷ es) s = run-ceiling k es (record_session_spend session paise s)
run-ceiling k (purchase session cart_key payment ∷ es) s =
    run-ceiling k es (record_settled_purchase session cart_key payment s)

run-spent :
    (k : Text) (es : List Event) (s : SessionRegistry)
    → spent_of k (run es s) ≡ spent_of k s + total k es
unfolding run step declare_session_ceiling record_settled_purchase
run-spent k [] s = omega arith
run-spent k (declare session budget ∷ es) s =
    run-spent k es (declare_session_ceiling session budget s)
run-spent k (spend session paise ∷ es) s =
    omega
      (arith, run-spent k es (record_session_spend session paise s), spend-spent k session paise s)
run-spent k (purchase session cart_key payment ∷ es) s =
    run-spent k es (record_settled_purchase session cart_key payment s)

-- Any sequence of declarations, payments and purchases, of any sessions: a session's state is the
-- lowest of its ceiling at the start and the budgets declared for it since, and the sum of what it
-- had spent and its payments since. What other sessions do never shows, and neither do purchases.
pub run-read_session_spend :
    (k : Text) (es : List Event) (s : SessionRegistry)
    → read_session_spend k (run es s)
      ≡ spend_state
          (lowest k es (lookup k s.session_ceiling_paise))
          (or_else (lookup k s.session_spent_paise) 0 + total k es)
unfolding read_session_spend
run-read_session_spend k es s = rw (run-ceiling k es s, run-spent k es s) refl

-- No budget that was declared for session `k` is below `bound`.
abbrev pub AllDeclared : Text → ℕ → List Event → Type 0
AllDeclared k bound [] = Unit
AllDeclared k bound (declare session budget ∷ es) =
    ((session ≢ k) ⊎ (bound ≤ budget)) × AllDeclared k bound es
AllDeclared k bound (spend session paise ∷ es) = AllDeclared k bound es
AllDeclared k bound (purchase session cart_key payment ∷ es) = AllDeclared k bound es

-- A ceiling bounds a current one, if there is any.
abbrev IsBelow : ℕ → Option ℕ → Type 0
IsBelow c none = Unit
IsBelow c (some d) = c ≤ d

at_most-le : (o : Option ℕ) (budget c : ℕ) → c ≤ at_most o budget → IsBelow c o × (c ≤ budget)
at_most-le none budget c h = (tt, h)
at_most-le (some d) budget c h = ground arith

lowest-IsBelow :
    (k : Text) (es : List Event) (o : Option ℕ) (c : ℕ)
    → lowest k es o ≡ some c
    → IsBelow c o × AllDeclared k c es
lowest-IsBelow k [] none c e = (tt, tt)
lowest-IsBelow k [] (some d) c e = (ground arith, tt)
lowest-IsBelow k (spend session paise ∷ es) o c e = lowest-IsBelow k es o c e
lowest-IsBelow k (purchase session cart_key payment ∷ es) o c e = lowest-IsBelow k es o c e
lowest-IsBelow k (declare session budget ∷ es) o c e = elim (Bool-cases (text_eq session k)) [
  | inl t ↦
      let (below, rest) = lowest-IsBelow k es (some (at_most o budget)) c (rw t at e) in
      let (old, new) = at_most-le o budget c below in (old, (inr new, rest))
  | inr f ↦
      let (below, rest) = lowest-IsBelow k es o c (rw f at e) in
      (below, (inl (λ q. cc (f, (text_eq_iff session k).1 q)), rest))
]

spend_state-some :
    (o : Option ℕ) (spent : ℕ) (st : SessionSpendState)
    → spend_state o spent ≡ some st
    → (o ≡ some st.ceiling_paise)
      × (st.remaining_paise + min st.spent_paise st.ceiling_paise ≡ st.ceiling_paise)
unfolding spend_state
spend_state-some none spent st e = cc
spend_state-some (some c) spent st e = ground arith

-- After any sequence of calls, a session's ceiling is at most every budget that was declared for it
-- on the way, and what remains is the ceiling less what was spent, nothing once it is used up:
-- no later delegation raises it.
pub remaining_within_every_budget :
    (k : Text) (es : List Event) (s : SessionRegistry) (st : SessionSpendState)
    → read_session_spend k (run es s) ≡ some st
    → AllDeclared k st.ceiling_paise es
      × (st.remaining_paise + min st.spent_paise st.ceiling_paise ≡ st.ceiling_paise)
remaining_within_every_budget k es s st e =
    let (ceiling, sum) = spend_state-some _ _ st (sym (run-read_session_spend k es s) ∙ e) in
    ((lowest-IsBelow k es (lookup k s.session_ceiling_paise) st.ceiling_paise ceiling).1, sum)
