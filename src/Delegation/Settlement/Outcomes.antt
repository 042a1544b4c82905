-- ===== src/Delegation/Settlement/Outcomes.antt =====
-- What a settlement leaves behind, captured or refused, and the ceiling of the session.
use razoragent_mesh.Prelude.{
  ◌≡◌, ◌≢◌, ◌⊎◌, inl, inr, refl, sym, ap, subst, ◌∙◌, Option, none, some, Fallible, fine, thrown,
}
use razoragent_mesh.Prelude.Text.{Text}
use razoragent_mesh.Sdk.Mandates.{ExecutionMandate}
use razoragent_mesh.Delegation.{
  DelegationSession, Mesh, Environment, MeshError, unknown_delegation, settlement_refused,
  settlement_unreadable, ToolRun, load_delegation_session,
}
use razoragent_mesh.Delegation.Settlement.{
  SettlementBody, EngineAnswer, captured, refused, unreadable, Engine, SettlementReceipt,
  named_session, upcoming_sale_notice,
}
use razoragent_mesh.Delegation.Settlement.Booked.{IsBooked, after_capture-IsBooked}
use razoragent_mesh.Delegation.Settlement.Run.{
  Bundle, SettlementCall, prepared, after_capture, answered, post_settlement, settlement_for,
  execute_settlement_for_delegation,
}

module _ (env : Environment) (call : SettlementCall) (engine : Engine) where
  -- The bundle of the loaded session was posted and captured; the call returns the payment's id, with
  -- the notice of a coming sale, and the books of the capture are kept.
  pub record Captured (found : Option DelegationSession) (loaded : Mesh)
      (run : ToolRun SettlementReceipt) : Type 0 where
    pub session : DelegationSession
    pub bundle : Bundle
    pub body : SettlementBody
    pub payment_id : Option Text
    pub was_found : found ≡ some session
    pub was_prepared : prepared env call session loaded.purchases ≡ fine (bundle, body)
    pub was_captured : engine body ≡ captured payment_id
    pub leaves : run.mesh ≡ after_capture env call bundle body.execution_mandate payment_id loaded
    pub returns :
        run.outcome
        ≡ fine (record {
          payment_id = payment_id;
          buyer_notice = upcoming_sale_notice bundle.cart call.notice_clock run.mesh;
        })
    pub booked :
        IsBooked
          (named_session call.mcp_session_id)
          bundle.session
          body.execution_mandate
          bundle.cart
          payment_id
          loaded
          run.mesh

  -- The call threw, nothing but the sweep of the load has changed, and the engine captured no body that
  -- the loaded session gives.
  pub record Turned (found : Option DelegationSession) (loaded : Mesh)
      (run : ToolRun SettlementReceipt) : Type 0 where
    pub fault : MeshError
    pub threw : run.outcome ≡ thrown fault
    pub leaves : run.mesh ≡ loaded
    pub uncaptured :
        (session : DelegationSession) (b : Bundle) (body : SettlementBody)
        (payment_id : Option Text)
        → found ≡ some session
        → prepared env call session loaded.purchases ≡ fine (b, body)
        → engine body ≢ captured payment_id

  answered-cases :
      (b : Bundle) (m : ExecutionMandate) (a : EngineAnswer) (mesh : Mesh)
      → ((fault : MeshError) × ((answered env call b m a mesh).outcome ≡ thrown fault)
          × ((answered env call b m a mesh).mesh ≡ mesh)
          × ((payment_id : Option Text) → a ≢ captured payment_id))
        ⊎ ((payment_id : Option Text) × (a ≡ captured payment_id)
            × ((answered env call b m a mesh).mesh ≡ after_capture env call b m payment_id mesh)
            × ((answered env call b m a mesh).outcome
                ≡ fine (record {
                  payment_id = payment_id;
                  buyer_notice =
                      upcoming_sale_notice b.cart call.notice_clock
                        (after_capture env call b m payment_id mesh);
                })))
  unfolding answered
  answered-cases b m (refused status text) mesh =
      inl (settlement_refused status text, refl, refl, λ payment_id q. cc)
  answered-cases b m unreadable mesh = inl (settlement_unreadable, refl, refl, λ payment_id q. cc)
  answered-cases b m (captured payment_id) mesh = inr (payment_id, refl, refl, refl)

  unprepared :
      (session s : DelegationSession) (bundle : Bundle × SettlementBody) (e : MeshError)
      (mesh : Mesh)
      → some session ≡ some s
      → prepared env call session mesh.purchases ≡ thrown e
      → prepared env call s mesh.purchases ≡ fine bundle
      → ⊥
  unprepared session s bundle e mesh same h ready =
      let here : session ≡ s = cc in
      absurd (cc (ap (λ x. prepared env call x mesh.purchases) here, h, ready))

  prepared_once :
      (session s : DelegationSession) (b c : Bundle) (body sent : SettlementBody) (mesh : Mesh)
      → some session ≡ some s
      → prepared env call session mesh.purchases ≡ fine (b, body)
      → prepared env call s mesh.purchases ≡ fine (c, sent)
      → body ≡ sent
  prepared_once session s b c body sent mesh same h ready =
      let here : session ≡ s = cc in
      let there : prepared env call session mesh.purchases ≡ fine (c, sent) =
        ap (λ x. prepared env call x mesh.purchases) here ∙ ready in
      cc

  post-cases :
      (session : DelegationSession) (p : Fallible MeshError (Bundle × SettlementBody)) (mesh : Mesh)
      → prepared env call session mesh.purchases ≡ p
      → Turned (some session) mesh (post_settlement env call engine p mesh)
        ⊎ Captured (some session) mesh (post_settlement env call engine p mesh)
  unfolding post_settlement
  post-cases session (thrown e) mesh h = inl (record {
    fault = e;
    threw = refl;
    leaves = refl;
    uncaptured =
        λ s c sent payment_id same ready. absurd (unprepared session s _ e mesh same h ready);
  })
  post-cases session (fine (b, body)) mesh h =
      elim (answered-cases b body.execution_mandate (engine body) mesh) [
        | inl (fault, threw, leaves, refusing) ↦ inl (record {
          fault = fault;
          threw = threw;
          leaves = leaves;
          uncaptured = λ s c sent payment_id same ready q.
              refusing payment_id
                (ap engine (prepared_once session s b c body sent mesh same h ready) ∙ q);
        })
        | inr (payment_id, e, leaves, returns) ↦ inr (record {
          session = session;
          bundle = b;
          body = body;
          payment_id = payment_id;
          was_found = refl;
          was_prepared = h;
          was_captured = e;
          leaves = leaves;
          returns =
              returns
              ∙ ap
                  (λ (x : Mesh). fine (record {
                    payment_id = payment_id;
                    buyer_notice = upcoming_sale_notice b.cart call.notice_clock x;
                  }))
                  (sym leaves);
          booked =
              subst
                (IsBooked (named_session call.mcp_session_id) b.session body.execution_mandate
                  b.cart payment_id mesh)
                (sym leaves)
                (after_capture-IsBooked env call b body.execution_mandate payment_id mesh);
        })
      ]

  settlement_for-cases :
      (found : Option DelegationSession) (mesh : Mesh)
      → Turned found mesh (settlement_for env call engine found mesh)
        ⊎ Captured found mesh (settlement_for env call engine found mesh)
  unfolding settlement_for
  settlement_for-cases none mesh = inl (record {
    fault = unknown_delegation;
    threw = refl;
    leaves = refl;
    uncaptured = λ s c sent payment_id same. absurd (cc);
  })
  settlement_for-cases (some session) mesh = post-cases session _ mesh refl

  pub execute_settlement-outcomes :
      (mesh : Mesh)
      → let loaded = load_delegation_session call.request.delegation_id call.loading_clock mesh in
        Turned loaded.0 loaded.1 (execute_settlement_for_delegation env call engine mesh)
        ⊎ Captured loaded.0 loaded.1 (execute_settlement_for_delegation env call engine mesh)
  unfolding execute_settlement_for_delegation
  execute_settlement-outcomes mesh =
      let loaded = load_delegation_session call.request.delegation_id call.loading_clock mesh in
      settlement_for-cases loaded.0 loaded.1
