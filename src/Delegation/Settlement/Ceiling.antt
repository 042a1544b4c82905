-- ===== src/Delegation/Settlement/Ceiling.antt =====
-- A capture spends the cart's total and stays within the session's ceiling.
use razoragent_mesh.Prelude.{
  ℕ, ◌+◌, ◌-◌, ◌≤◌, ◌≡◌, inl, inr, refl, sym, ap, ◌∙◌, Option, none, some, or_else, fine, arith,
  max,
}
use razoragent_mesh.Prelude.Text.{Text}
use razoragent_mesh.Prelude.Dict.{lookup, lookup-insert_self}
use razoragent_mesh.Session.{
  SessionRegistry, SessionSpendState, spend_state, read_session_spend, record_session_spend,
  record_settled_purchase,
}
use razoragent_mesh.Sdk.Mandates.{ExecutionMandate}
use razoragent_mesh.Delegation.{
  DelegationSession, Mesh, Environment, load_delegation_session, discard_session_buyer_key,
  save_delegation_session,
}
use razoragent_mesh.Delegation.Settlement.{
  SettlementBody, captured, Engine, SettlementReceipt, cart_key, named_session, within_spend,
  reject_over_session_budget, remember_purchase, record_spend,
}
use razoragent_mesh.Delegation.Settlement.Run.{
  Bundle, SettlementCall, settlement_body, after_capture, execute_settlement_for_delegation,
}
use razoragent_mesh.Delegation.Settlement.Prepared.{Passed, prepared-Passed}
use razoragent_mesh.Delegation.Settlement.Outcomes.{Captured, Turned, execute_settlement-outcomes}

-- A session's account in two states: the same ceiling, and `paise` more spent.
abbrev pub IsCharged : Text → ℕ → SessionRegistry → SessionRegistry → SessionSpendState → Type 0
IsCharged id paise before after spend =
    (later : SessionSpendState) × (read_session_spend id before ≡ some spend)
    × (read_session_spend id after ≡ some later)
    × (later.ceiling_paise ≡ spend.ceiling_paise)
    × (later.spent_paise ≡ spend.spent_paise + paise)

spend_state-parts :
    (o : Option ℕ) (spent : ℕ) (spend : SessionSpendState)
    → spend_state o spent ≡ some spend
    → (o ≡ some spend.ceiling_paise) × (spent ≡ spend.spent_paise)
unfolding spend_state
spend_state-parts none spent spend h = absurd (cc)
spend_state-parts (some c) spent spend h = (cc, cc)

spent_after :
    (id : Text) (paise : ℕ) (s : SessionRegistry) (spend : SessionSpendState)
    → read_session_spend id s ≡ some spend
    → IsCharged id paise s (record_session_spend id paise s) spend
unfolding read_session_spend record_session_spend spend_state
spent_after id paise s spend h =
    let (ceiling, spent) =
      spend_state-parts (lookup id s.session_ceiling_paise)
        (or_else (lookup id s.session_spent_paise) 0) spend h in
    let total : ℕ = or_else (lookup id s.session_spent_paise) 0 + paise in
    (
      record {
        ceiling_paise = spend.ceiling_paise;
        spent_paise = total;
        remaining_paise = max 0 (spend.ceiling_paise - total);
      },
      h,
      rw (ceiling, lookup-insert_self id total s.session_spent_paise) refl,
      refl,
      ap (λ (n : ℕ). n + paise) spent,
    )

remembered_account :
    (id : Text) (key : Text) (payment_id : Option Text) (s : SessionRegistry)
    → read_session_spend id (remember_purchase key payment_id (some id) s) ≡ read_session_spend id s
unfolding remember_purchase record_settled_purchase read_session_spend
remembered_account id key none s = refl
remembered_account id key (some payment_id) s = refl

within_spend-fine :
    (total : ℕ) (spend : SessionSpendState)
    → within_spend total (some spend) ≡ fine tt
    → spend.spent_paise + total ≤ spend.ceiling_paise
unfolding within_spend
within_spend-fine total spend h = ground arith

module _ (env : Environment) (call : SettlementCall) (engine : Engine) where
  budget_fits :
      (b : Bundle) (purchases : SessionRegistry) (id : Text) (spend : SessionSpendState)
      → named_session call.mcp_session_id ≡ some id
      → read_session_spend id purchases ≡ some spend
      → reject_over_session_budget b.cart.total_paise (named_session call.mcp_session_id) purchases
        ≡ fine tt
      → spend.spent_paise + b.cart.total_paise ≤ spend.ceiling_paise
  unfolding reject_over_session_budget
  budget_fits b purchases id spend named declared h =
      within_spend-fine b.cart.total_paise spend (rw (named, declared) at h)

  charged :
      (b : Bundle) (m : ExecutionMandate) (payment_id : Option Text) (loaded : Mesh) (id : Text)
      (spend : SessionSpendState)
      → named_session call.mcp_session_id ≡ some id
      → read_session_spend id loaded.purchases ≡ some spend
      → IsCharged id b.cart.total_paise loaded.purchases
          ((after_capture env call b m payment_id loaded).purchases)
          spend
  unfolding after_capture discard_session_buyer_key save_delegation_session record_spend
  charged b m payment_id loaded id spend named declared =
      let remembered = remember_purchase (cart_key b.cart) payment_id (some id) loaded.purchases in
      let same = remembered_account id (cart_key b.cart) payment_id loaded.purchases in
      let (later, before, after, ceiling, spent) =
        spent_after id b.cart.total_paise remembered spend (same ∙ declared) in
      (later, declared, rw named after, ceiling, spent)

  same_total :
      {session : DelegationSession} {purchases : SessionRegistry} (b : Bundle)
      (body : SettlementBody)
      → Passed env call session purchases b body
      → b.cart.total_paise ≡ body.cart_mandate.total_paise
  unfolding settlement_body
  same_total b body p =
      ap (λ (x : SettlementBody). x.cart_mandate.total_paise) (sym (Passed.posted p))

  -- The call's session has an id, and a ceiling was declared for it: then a settlement that returns was
  -- captured by the engine on a posted body, the session has spent the total of that body's cart more
  -- than before, its ceiling is the same, and what it has spent is within the ceiling.
  pub execute_settlement-in_ceiling :
      (mesh : Mesh) (receipt : SettlementReceipt) (id : Text) (spend : SessionSpendState)
      → named_session call.mcp_session_id ≡ some id
      → (execute_settlement_for_delegation env call engine mesh).outcome ≡ fine receipt
      → read_session_spend id mesh.purchases ≡ some spend
      → (body : SettlementBody) × (payment_id : Option Text) × (engine body ≡ captured payment_id)
        × IsCharged id body.cart_mandate.total_paise mesh.purchases
            ((execute_settlement_for_delegation env call engine mesh).mesh).purchases
            spend
        × (spend.spent_paise + body.cart_mandate.total_paise ≤ spend.ceiling_paise)
  unfolding load_delegation_session
  execute_settlement-in_ceiling mesh receipt id spend named returned declared =
      elim (execute_settlement-outcomes env call engine mesh) [
        | inl turned ↦ let threw = Turned.threw turned in absurd (cc)
        | inr out ↦
            let b = Captured.bundle out in
            let body = Captured.body out in
            let p = prepared-Passed env call _ _ b body (Captured.was_prepared out) in
            let total : b.cart.total_paise ≡ body.cart_mandate.total_paise = same_total b body p in
            let fits = budget_fits b mesh.purchases id spend named declared (Passed.in_budget p) in
            (
              body,
              Captured.payment_id out,
              Captured.was_captured out,
              rw (← total, Captured.leaves out)
                  (charged b body.execution_mandate (Captured.payment_id out) _ id spend named
                    declared),
              rw (← total) fits,
            )
      ]
