-- ===== src/Delegation/Execution.antt =====
-- packages/mcpServer/src/tools/executionMandateSigner.ts: the payload that binds an intent and a cart,
-- and in custodial mode its signature. Ids, nonces and clocks are arguments; the instructions and the
-- disclosure of the response are left out.
use razoragent_mesh.Prelude.{
  ℕ, ◌+◌, [], Option, none, some, or_else, Fallible, fine, thrown, throw_if, ◌>>=◌, ◌>>◌,
}
use razoragent_mesh.Prelude.Text.{Text}
use razoragent_mesh.Sdk.Json.{object, canonicalize_json_string}
use razoragent_mesh.Sdk.Keys.{from_secret_key}
use razoragent_mesh.Sdk.Mandates.{
  CartMandate, UnsignedExecutionPayload, ExecutionMandate, ExecutionDraws, drifted,
  execution_fields, sign_payload, build_unsigned_execution_payload,
}
use razoragent_mesh.Delegation.{
  KeyCustodyMode, agent_held, mesh_demo_custodial, DelegationSession, Mesh, Environment, MeshError,
  unknown_delegation, delegation_already_settled, no_cart_for_delegation, ToolRun, keyed,
  signed_by_sdk, load_delegation_session, save_delegation_session, execution_signing_window_seconds,
}

pub record ExecutionResponse : Type 0 where
  pub unsigned_payload : UnsignedExecutionPayload
  pub settle_before_timestamp : ℕ
  pub signing_payload_canonical_json : Option Text
  pub signing_digest_sha256 : Option Text
  pub execution_mandate : Option ExecutionMandate

module _ (env : Environment) (draws : ExecutionDraws) where
  unfoldable pub execution_payload :
      DelegationSession → CartMandate → Fallible MeshError UnsignedExecutionPayload
  unfolding signed_by_sdk
  execution_payload session cart = signed_by_sdk (
      build_unsigned_execution_payload env.sha256 session.intent_mandate cart cart.total_paise
        session.intent_mandate.upi_circle_delegation_token draws session.buyer_agent_did)

  -- The payload and its canonical text.
  unfoldable pub issued_payload_of :
      DelegationSession → Option CartMandate → Fallible MeshError (UnsignedExecutionPayload × Text)
  unfolding execution_payload signed_by_sdk drifted
  issued_payload_of session none = thrown no_cart_for_delegation
  issued_payload_of session (some cart) = do
    payload ← execution_payload session cart
    canonical ←
        signed_by_sdk (drifted (canonicalize_json_string (object (execution_fields payload))))
    fine (payload, canonical)

  unfoldable pub issued_payload :
      DelegationSession → Fallible MeshError (UnsignedExecutionPayload × Text)
  unfolding issued_payload_of
  issued_payload session = do
    throw_if session.settled delegation_already_settled
    issued_payload_of session session.cart_mandate

  unfoldable pub issued_session :
      DelegationSession → UnsignedExecutionPayload → Text → DelegationSession
  issued_session session payload canonical = record session {
    signed_execution_mandate = none;
    unsigned_execution_payload = some payload;
    execution_canonical_json = some canonical;
  }

  -- The answer, after the session is saved, by who holds the key.
  unfoldable pub signing_answer :
      DelegationSession
      → UnsignedExecutionPayload
      → Text
      → KeyCustodyMode
      → Fallible MeshError ExecutionResponse
  unfolding keyed signed_by_sdk
  signing_answer session payload canonical agent_held = fine (record {
    unsigned_payload = payload;
    settle_before_timestamp = payload.timestamp + execution_signing_window_seconds;
    signing_payload_canonical_json = some canonical;
    signing_digest_sha256 = some (env.sha256 canonical);
    execution_mandate = none;
  })
  signing_answer session payload canonical mesh_demo_custodial = do
    signer ← keyed (from_secret_key env.nacl (or_else session.buyer_secret_key_hex []))
    signature ← signed_by_sdk (sign_payload env.nacl signer (execution_fields payload))
    fine (record {
      unsigned_payload = payload;
      settle_before_timestamp = payload.timestamp + execution_signing_window_seconds;
      signing_payload_canonical_json = none;
      signing_digest_sha256 = none;
      execution_mandate = some (record { payload = payload; agent_signature = signature });
    })

  unfoldable pub store_issued :
      DelegationSession
      → Fallible MeshError (UnsignedExecutionPayload × Text)
      → Mesh
      → ToolRun ExecutionResponse
  unfolding issued_session signing_answer
  store_issued session (thrown e) mesh = record { outcome = thrown e; mesh = mesh }
  store_issued session (fine (payload, canonical)) mesh = record {
    outcome = signing_answer session payload canonical session.key_custody;
    mesh = save_delegation_session (issued_session session payload canonical) mesh;
  }

  unfoldable pub execution_for : Option DelegationSession → Mesh → ToolRun ExecutionResponse
  unfolding issued_payload store_issued
  execution_for none mesh = record { outcome = thrown unknown_delegation; mesh = mesh }
  execution_for (some session) mesh = store_issued session (issued_payload session) mesh

  unfoldable pub sign_execution_mandate_for_delegation : Text → ℕ → Mesh → ToolRun ExecutionResponse
  unfolding execution_for
  sign_execution_mandate_for_delegation delegation_id now mesh =
      let (found, after) = load_delegation_session delegation_id now mesh in
      execution_for found after
