-- ===== src/Delegation/Reach.antt =====
-- The states that the mandate tools reach from an empty store of sessions, in any order of calls.
use razoragent_mesh.Prelude.{
  ℕ, ◌≡◌, refl, sym, ap, subst, ◌∙◌, inl, inr, [], Option, none, some, true, fine, >>=-eq-fine,
}
use razoragent_mesh.Prelude.Text.{Text}
use razoragent_mesh.Sdk.Mandates.{UnsignedExecutionPayload, ExecutionMandate, ExecutionDraws}
use razoragent_mesh.Delegation.{
  KeyCustodyMode, agent_held, mesh_demo_custodial, DelegationSession, Mesh, Environment, ToolRun,
  load_delegation_session, discard_session_buyer_key,
}
use razoragent_mesh.Delegation.Establish.{
  EstablishDelegationRequest, EstablishDraws, pair_agent, establish_agent_delegation,
  declare_ceiling,
}
use razoragent_mesh.Delegation.Cart.{
  CreateCartMandateRequest, CartDraws, create_cart_mandate_for_delegation,
}
use razoragent_mesh.Delegation.Execution.{sign_execution_mandate_for_delegation}
use razoragent_mesh.Delegation.Settlement.{Engine}
use razoragent_mesh.Delegation.Settlement.Run.{
  Bundle, SettlementCall, execution_mandate_of, resolve_agent_signature, after_capture,
  execute_settlement_for_delegation,
}
use razoragent_mesh.Delegation.Settlement.Prepared.{
  Requested, Passed, prepared-Passed, posted_mandate,
}
use razoragent_mesh.Delegation.Settlement.Outcomes.{Captured, Turned, execute_settlement-outcomes}
use razoragent_mesh.Delegation.Shape.{
  CustodyShape, PayloadShape, BundleShape, IsSound, AreSound, load-AreSound, load-IsSound,
  save-AreSound,
}
use razoragent_mesh.Delegation.Bound.{store_paired-AreSound, cart_for-AreSound}
use razoragent_mesh.Delegation.Issuing.{execution_for-AreSound}

module _ (env : Environment) where
  forgotten-CustodyShape : (mode : KeyCustodyMode) → CustodyShape mode none
  forgotten-CustodyShape agent_held = refl
  forgotten-CustodyShape mesh_demo_custodial = tt

  -- The mandate that is posted is the session's payload, signed.
  pub posted-payload :
      (call : SettlementCall) (b : Bundle) (o : Option ExecutionMandate) (m : ExecutionMandate)
      → BundleShape (some b.payload) o
      → execution_mandate_of env call b o ≡ fine m
      → m.payload ≡ b.payload
  unfolding execution_mandate_of
  posted-payload call b (some signed) m shape h = cc
  posted-payload call b none m shape h =
      let (signature, made, same) =
        >>=-eq-fine
          (resolve_agent_signature env call b b.session.key_custody call.request.agent_signature)
          (λ signature. fine (record { payload = b.payload; agent_signature = signature })) h in
      cc

  settled-IsSound :
      (call : SettlementCall) (id : Text) (s : DelegationSession) (b : Bundle)
      (m : ExecutionMandate)
      → IsSound env id s
      → s.unsigned_execution_payload ≡ some b.payload
      → execution_mandate_of env call b s.signed_execution_mandate ≡ fine m
      → IsSound env s.delegation_id (record s {
        buyer_secret_key_hex = none;
        signed_execution_mandate = some m;
        settled = true;
      })
  settled-IsSound call id s b m h found made = record {
    own_id = refl;
    settled_shape = tt;
    custody_shape = forgotten-CustodyShape s.key_custody;
    payload_shape = kept s.unsigned_execution_payload (IsSound.payload_shape h);
    bundle_shape =
        found
        ∙ ap some (
            sym (
              posted-payload call b s.signed_execution_mandate m
                (subst (λ p. BundleShape p s.signed_execution_mandate) found
                  (IsSound.bundle_shape h))
                made));
  }
    where
      kept :
          (p : Option UnsignedExecutionPayload)
          → PayloadShape env s p
          → PayloadShape env
              (record s {
                buyer_secret_key_hex = none;
                signed_execution_mandate = some m;
                settled = true;
              })
              p
      kept none e = e
      kept (some p) e = e

  Captured-AreSound :
      (call : SettlementCall) (engine : Engine) (found : Option DelegationSession) (loaded : Mesh)
      (run : ToolRun _)
      → Captured env call engine found loaded run
      → ((s : DelegationSession) → found ≡ some s → IsSound env call.request.delegation_id s)
      → AreSound env loaded.sessions
      → AreSound env (run.mesh).sessions
  unfolding after_capture discard_session_buyer_key
  Captured-AreSound call engine found loaded run out sound h =
      let b = Captured.bundle out in
      let body = Captured.body out in
      let p = prepared-Passed env call _ _ b body (Captured.was_prepared out) in
      let session = sym (Requested.same_session (Passed.requested p)) in
      let payload =
        subst (λ x. x.unsigned_execution_payload ≡ some b.payload) session
          (Requested.has_payload (Passed.requested p)) in
      let id = call.request.delegation_id in
      let whole =
        subst (IsSound env id) session (sound (Captured.session out) (Captured.was_found out)) in
      subst (λ x. AreSound env x.sessions) (sym (Captured.leaves out))
        (save-AreSound env _
          (record loaded {
            purchases =
                (after_capture env call b body.execution_mandate (Captured.payment_id out)
                  loaded).purchases;
            shelf =
                (after_capture env call b body.execution_mandate (Captured.payment_id out)
                  loaded).shelf;
          })
          h
          (settled-IsSound call id b.session b body.execution_mandate whole payload
            (posted_mandate env call b body p)))

  settlement-AreSound :
      (call : SettlementCall) (engine : Engine) (mesh : Mesh)
      → AreSound env mesh.sessions
      → AreSound env ((execute_settlement_for_delegation env call engine mesh).mesh).sessions
  settlement-AreSound call engine mesh h =
      let loaded = load_delegation_session call.request.delegation_id call.loading_clock mesh in
      let kept = load-AreSound env call.request.delegation_id call.loading_clock mesh h in
      elim (execute_settlement-outcomes env call engine mesh) [
        | inl turned ↦ subst (λ x. AreSound env x.sessions) (sym (Turned.leaves turned)) kept
        | inr out ↦
            Captured-AreSound call engine loaded.0 loaded.1 _ out
              (λ s found.
                load-IsSound env call.request.delegation_id call.loading_clock mesh s h found)
              kept
      ]

  -- One call of a mandate tool, or a call of another tool, which leaves the sessions alone.
  pub data Step : Mesh → Mesh → Type 0 where
    establish :
        {before after : Mesh} (r : EstablishDelegationRequest) (draws : EstablishDraws)
        (mcp_session_id : Option Text)
        → after ≡ (establish_agent_delegation env r draws mcp_session_id before).mesh
        → Step before after
    create_cart :
        {before after : Mesh} (r : CreateCartMandateRequest) (draws : CartDraws)
        → after ≡ (create_cart_mandate_for_delegation env r draws before).mesh
        → Step before after
    sign_execution :
        {before after : Mesh} (draws : ExecutionDraws) (delegation_id : Text) (now : ℕ)
        → after ≡ (sign_execution_mandate_for_delegation env draws delegation_id now before).mesh
        → Step before after
    settle :
        {before after : Mesh} (call : SettlementCall) (engine : Engine)
        → after ≡ (execute_settlement_for_delegation env call engine before).mesh
        → Step before after
    other_tool : {before after : Mesh} → after.sessions ≡ before.sessions → Step before after

  pub data IsReachable : Mesh → Type 0 where
    started : {mesh : Mesh} → mesh.sessions ≡ [] → IsReachable mesh
    stepped : {before after : Mesh} → IsReachable before → Step before after → IsReachable after

  step-AreSound :
      {before after : Mesh}
      → Step before after
      → AreSound env before.sessions
      → AreSound env after.sessions
  unfolding establish_agent_delegation create_cart_mandate_for_delegation
      sign_execution_mandate_for_delegation
  step-AreSound {before} (establish r draws mcp_session_id e) h =
      subst (λ x. AreSound env x.sessions) (sym e)
        (store_paired-AreSound env r draws (pair_agent env r draws)
          (record before {
            purchases = declare_ceiling mcp_session_id r.max_budget_paise before.purchases;
          })
          refl h)
  step-AreSound {before} (create_cart r draws e) h =
      let loaded = load_delegation_session r.delegation_id draws.loading before in
      subst (λ x. AreSound env x.sessions) (sym e)
        (cart_for-AreSound env r draws r.delegation_id loaded.0 loaded.1
          (λ s found. load-IsSound env r.delegation_id draws.loading before s h found)
          (load-AreSound env r.delegation_id draws.loading before h))
  step-AreSound {before} (sign_execution draws id now e) h =
      let loaded = load_delegation_session id now before in
      subst (λ x. AreSound env x.sessions) (sym e)
        (execution_for-AreSound env draws id loaded.0 loaded.1
          (λ s found. load-IsSound env id now before s h found) (load-AreSound env id now before h))
  step-AreSound {before} (settle call engine e) h =
      subst (λ x. AreSound env x.sessions) (sym e) (settlement-AreSound call engine before h)
  step-AreSound (other_tool e) h = rw e h

  -- In every state that the tools reach, each stored session stands under its own id; it has a signed
  -- bundle and no key when it is settled, and no bundle when it is not; in agent_held mode it has no key;
  -- an issued payload names its agent, its token and the hash of its intent, and the kept text is the
  -- payload's canonical one; and a kept bundle is that payload, signed.
  pub reachable-AreSound : (mesh : Mesh) → IsReachable mesh → AreSound env mesh.sessions
  reachable-AreSound mesh (started e) = rw e tt
  reachable-AreSound mesh (stepped {before} r s) = step-AreSound s (reachable-AreSound before r)
