-- ===== src/Delegation/Single.antt =====
-- A delegation buys once: a settled session posts the bundle that it keeps.
use razoragent_mesh.Prelude.{◌≡◌, refl, sym, ap, subst, ◌∙◌, Option, none, some, true, fine}
use razoragent_mesh.Sdk.Mandates.{ExecutionMandate}
use razoragent_mesh.Delegation.{DelegationSession, Mesh, Environment, load_delegation_session}
use razoragent_mesh.Delegation.Settlement.{SettlementBody}
use razoragent_mesh.Delegation.Settlement.Run.{
  Bundle, SettlementCall, settlement_body, execution_mandate_of, prepared,
}
use razoragent_mesh.Delegation.Settlement.Prepared.{
  Requested, Passed, prepared-Passed, posted_mandate,
}
use razoragent_mesh.Delegation.Shape.{SettledShape, IsSound, AreSound, load-IsSound}

module _ (env : Environment) where
  kept_bundle :
      (s : DelegationSession)
      → SettledShape s.settled s.signed_execution_mandate s.buyer_secret_key_hex
      → s.settled ≡ true
      → (m : ExecutionMandate) × (s.signed_execution_mandate ≡ some m)
  kept_bundle s shape e =
      go s.signed_execution_mandate
        (subst (λ t. SettledShape t s.signed_execution_mandate s.buyer_secret_key_hex) e shape)
    where
      go :
          (o : Option ExecutionMandate)
          → SettledShape true o s.buyer_secret_key_hex
          → (m : ExecutionMandate) × (o ≡ some m)
      go none h = absurd h
      go (some m) h = (m, refl)

  stored_mandate :
      (call : SettlementCall) (b : Bundle) (o : Option ExecutionMandate) (m n : ExecutionMandate)
      → o ≡ some m
      → execution_mandate_of env call b o ≡ fine n
      → m ≡ n
  unfolding execution_mandate_of
  stored_mandate call b none m n e h = absurd (cc)
  stored_mandate call b (some k) m n e h = cc

  -- In a state whose stored sessions are well formed, a call on a settled session that would post anything posts the
  -- bundle that the session keeps, its intent and its cart, whatever signature the call carries; and the
  -- execution id that it asks for is that of the kept payload.
  pub settled-replays :
      (call : SettlementCall) (mesh : Mesh) (s : DelegationSession) (b : Bundle)
      (body : SettlementBody)
      → AreSound env mesh.sessions
      → (load_delegation_session call.request.delegation_id call.loading_clock mesh).0 ≡ some s
      → s.settled ≡ true
      → prepared env call s mesh.purchases ≡ fine (b, body)
      → (s.signed_execution_mandate ≡ some body.execution_mandate)
        × (s.intent_mandate ≡ body.intent_mandate)
        × (s.cart_mandate ≡ some body.cart_mandate)
        × (s.unsigned_execution_payload ≡ some b.payload)
        × (b.payload.execution_id ≡ call.request.execution_id)
  unfolding settlement_body
  settled-replays call mesh s b body sounds found e h =
      let sound =
        load-IsSound env call.request.delegation_id call.loading_clock mesh s sounds found in
      let p = prepared-Passed env call s mesh.purchases b body h in
      let q = Passed.requested p in
      let (m, kept) = kept_bundle s (IsSound.settled_shape sound) e in
      let posted = posted_mandate env call b body p in
      let here =
        ap (λ (x : DelegationSession). x.signed_execution_mandate) (Requested.same_session q) in
      let same =
        stored_mandate call b b.session.signed_execution_mandate m body.execution_mandate
          (here ∙ kept) posted in
      let packed = sym (Passed.posted p) in
      (
        kept ∙ ap some same,
        ap (λ (x : DelegationSession). x.intent_mandate) (sym (Requested.same_session q))
            ∙ ap (λ (x : SettlementBody). x.intent_mandate) packed,
        Requested.has_cart q ∙ ap (λ (x : SettlementBody). some x.cart_mandate) packed,
        Requested.has_payload q,
        Requested.same_id q,
      )
