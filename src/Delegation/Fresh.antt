-- ===== src/Delegation/Fresh.antt =====
-- A bundle that is signed and settled with no new cart between: what the engine's check of the chain
-- says of it.
use razoragent_mesh.Prelude.{◌≡◌, ◌≤◌, ◌↔◌, sym, ap, subst, ◌∙◌, Bool, true, fine, arith}
use razoragent_mesh.Prelude.Text.{Text}
use razoragent_mesh.Session.{SessionRegistry}
use razoragent_mesh.Sdk.Mandates.{
  IntentMandate, CartMandate, UnsignedExecutionPayload, ExecutionMandate, ExecutionDraws,
}
use razoragent_mesh.Sdk.Mandates.Hash.{Built}
use razoragent_mesh.Sdk.Mandates.Chain.{verify_mandate_chain}
use razoragent_mesh.Sdk.Mandates.Linked.{verify_mandate_chain_iff}
use razoragent_mesh.Delegation.{DelegationSession, Environment}
use razoragent_mesh.Delegation.Execution.{issued_payload, issued_session}
use razoragent_mesh.Delegation.Settlement.{SettlementBody}
use razoragent_mesh.Delegation.Settlement.Run.{Bundle, SettlementCall, settlement_body, prepared}
use razoragent_mesh.Delegation.Settlement.Prepared.{
  Requested, Passed, prepared-Passed, posted_mandate,
}
use razoragent_mesh.Delegation.Reach.{posted-payload}
use razoragent_mesh.Delegation.Issuing.{Issued, issued_payload-Issued}

module _ (env : Environment) where
  verify_mandate_chain-Built :
      (draws : ExecutionDraws) (intent : IntentMandate) (cart : CartMandate) (token did : Text)
      (m : ExecutionMandate) (raise : Bool)
      → Built env.sha256 intent cart cart.total_paise token draws did m.payload
      → (verify_mandate_chain env.sha256 intent cart m raise ≡ fine true) ↔ (
          (cart.total_paise ≤ intent.max_budget_paise)
          × (cart.total_paise ≤ intent.single_transaction_limit_paise)
          × (draws.timestamp ≤ intent.valid_until_timestamp))
  verify_mandate_chain-Built draws intent cart token did m raise built =
      let chain = (verify_mandate_chain_iff env.sha256 intent cart m raise).0 in
      let time = Built.same_time built in
      (
        (λ v. let (a, b, c) = chain.0 v in (c.1, c.2, omega arith)),
        (λ w. chain.1 (
          Built.intent_hash built,
          Built.cart_hash built,
          (Built.same_amount built, w.0, w.1, omega arith),
        )),
      )

  -- A session for which `sign_execution_mandate` has just issued a payload posts, when it posts anything,
  -- a bundle whose chain verifies exactly when the posted cart's total is within the posted intent's
  -- budget and transaction limit and the payload was issued no later than the intent's end.
  pub fresh_bundle_verifies :
      (draws : ExecutionDraws) (s : DelegationSession) (p : UnsignedExecutionPayload) (text : Text)
      (call : SettlementCall) (purchases : SessionRegistry) (b : Bundle) (body : SettlementBody)
      (raise : Bool)
      → issued_payload env draws s ≡ fine (p, text)
      → prepared env call (issued_session env draws s p text) purchases ≡ fine (b, body)
      → (verify_mandate_chain env.sha256 body.intent_mandate body.cart_mandate
            body.execution_mandate raise
          ≡ fine true)
        ↔ ((body.cart_mandate.total_paise ≤ body.intent_mandate.max_budget_paise)
            × (body.cart_mandate.total_paise ≤ body.intent_mandate.single_transaction_limit_paise)
            × (draws.timestamp ≤ body.intent_mandate.valid_until_timestamp))
  unfolding issued_session settlement_body
  fresh_bundle_verifies draws s p text call purchases b body raise issued h =
      let i = issued_payload-Issued env draws s p text issued in
      let passed =
        prepared-Passed env call (issued_session env draws s p text) purchases b body h in
      let q = Passed.requested passed in
      let posted = posted_mandate env call b body passed in
      let unsigned =
        ap (λ (x : DelegationSession). x.signed_execution_mandate) (Requested.same_session q) in
      let sent : body.execution_mandate.payload ≡ b.payload =
        posted-payload env call b b.session.signed_execution_mandate body.execution_mandate
          (rw unsigned tt) posted in
      let packed = sym (Passed.posted passed) in
      let has_payload = Requested.has_payload q in
      let own_payload : p ≡ b.payload = cc in
      let payload = own_payload ∙ sym sent in
      let has_cart = sym (Issued.has_cart i) ∙ Requested.has_cart q in
      let own_cart : Issued.cart i ≡ b.cart = cc in
      let cart = own_cart ∙ ap (λ (x : SettlementBody). x.cart_mandate) packed in
      let intent =
        ap (λ (x : DelegationSession). x.intent_mandate) (sym (Requested.same_session q))
        ∙ ap (λ (x : SettlementBody). x.intent_mandate) packed in
      let token = s.intent_mandate.upi_circle_delegation_token in
      verify_mandate_chain-Built draws body.intent_mandate body.cart_mandate token s.buyer_agent_did
        body.execution_mandate raise
        (subst
          (λ x.
            Built env.sha256 x body.cart_mandate body.cart_mandate.total_paise token draws
              s.buyer_agent_did body.execution_mandate.payload)
          intent
          (subst
            (λ x.
              Built env.sha256 s.intent_mandate x x.total_paise token draws s.buyer_agent_did
                body.execution_mandate.payload)
            cart
            (subst
              (λ x.
                Built env.sha256 s.intent_mandate (Issued.cart i) (Issued.cart i).total_paise token
                  draws s.buyer_agent_did x)
              payload (Issued.built i))))
