-- ===== src/Delegation/Settlement/Run.antt =====
-- packages/mcpServer/src/tools/settlementExecutor.ts: `executeSettlementForDelegation`, from the guards
-- to the receipt. What comes before the post changes nothing but the sweep of the load.
use razoragent_mesh.Prelude.{
  ℕ, [], Option, none, some, not, or_else, Fallible, fine, thrown, throw_if, ◌>>=◌, ◌>>◌,
}
use razoragent_mesh.Prelude.Text.{Text, text_eq}
use razoragent_mesh.Session.{SessionRegistry}
use razoragent_mesh.Sdk.Keys.{from_secret_key, extract_public_key_from_did, verify_signature}
use razoragent_mesh.Sdk.Mandates.{
  CartMandate, UnsignedExecutionPayload, ExecutionMandate, execution_fields, sign_payload,
}
use razoragent_mesh.Delegation.{
  KeyCustodyMode, agent_held, mesh_demo_custodial, DelegationSession, Mesh, Environment, MeshError,
  unknown_delegation, no_execution_payload, execution_id_mismatch, signature_required,
  signature_invalid, custody_mismatch, settlement_refused, settlement_unreadable, ToolRun, keyed,
  signed_by_sdk, load_delegation_session, discard_session_buyer_key,
}
use razoragent_mesh.Delegation.Payout.{
  MerchantPayoutAccount, resolve_merchant_payout_account, assert_requested_merchant_account_matches,
}
use razoragent_mesh.Delegation.Settlement.{
  ExecuteSettlementRequest, SettlementBody, EngineAnswer, captured, refused, unreadable, Engine,
  SettlementReceipt, cart_key, named_session, reject_duplicate_purchase, reject_over_session_budget,
  remember_purchase, record_spend, consume_settled_reservation, upcoming_sale_notice,
}

-- What the guards find: the session, its payload and its cart.
pub record Bundle : Type 0 where
  pub session : DelegationSession
  pub payload : UnsignedExecutionPayload
  pub cart : CartMandate

pub record SettlementCall : Type 0 where
  pub request : ExecuteSettlementRequest
  pub mcp_session_id : Option Text
  pub payment_id : Text
  pub loading_clock : ℕ
  pub posting_clock : ℕ
  pub notice_clock : ℕ

unfoldable pub bundle_of :
    DelegationSession
    → Option UnsignedExecutionPayload
    → Option CartMandate
    → Fallible MeshError Bundle
bundle_of session (some payload) (some cart) =
    fine (record { session = session; payload = payload; cart = cart })
bundle_of session (some payload) none = thrown no_execution_payload
bundle_of session none cart = thrown no_execution_payload

module _ (env : Environment) (call : SettlementCall) where
  unfoldable pub requested_bundle : DelegationSession → Fallible MeshError Bundle
  unfolding bundle_of
  requested_bundle session = do
    b ← bundle_of session session.unsigned_execution_payload session.cart_mandate
    throw_if (not (text_eq b.payload.execution_id call.request.execution_id)) execution_id_mismatch
    fine b

  unfoldable pub settlement_guards :
      Bundle → SessionRegistry → Fallible MeshError MerchantPayoutAccount
  unfolding reject_duplicate_purchase reject_over_session_budget
  settlement_guards b purchases = do
    payout ← resolve_merchant_payout_account env b.cart.merchant_did
    assert_requested_merchant_account_matches call.request.merchant_account payout
    reject_duplicate_purchase (cart_key b.cart) call.request.allow_repeat_purchase
        (named_session call.mcp_session_id) purchases
    reject_over_session_budget b.cart.total_paise (named_session call.mcp_session_id) purchases
    fine payout

  -- `resolveAgentSignature`
  unfoldable pub resolve_agent_signature :
      Bundle → KeyCustodyMode → Option Text → Fallible MeshError Text
  unfolding keyed signed_by_sdk
  resolve_agent_signature b agent_held none = thrown signature_required
  resolve_agent_signature b agent_held (some signature) = do
    public_key ← keyed (extract_public_key_from_did b.session.buyer_agent_did)
    throw_if
        (not (
          verify_signature env.nacl (or_else b.session.execution_canonical_json []) signature
            public_key))
        signature_invalid
    fine signature
  resolve_agent_signature b mesh_demo_custodial (some signature) = thrown custody_mismatch
  resolve_agent_signature b mesh_demo_custodial none = do
    signer ← keyed (from_secret_key env.nacl (or_else b.session.buyer_secret_key_hex []))
    signed_by_sdk (sign_payload env.nacl signer (execution_fields b.payload))

  -- The stored bundle is posted again; a session without one is signed.
  unfoldable pub execution_mandate_of :
      Bundle → Option ExecutionMandate → Fallible MeshError ExecutionMandate
  unfolding resolve_agent_signature
  execution_mandate_of b (some signed) = fine signed
  execution_mandate_of b none = do
    signature ← resolve_agent_signature b b.session.key_custody call.request.agent_signature
    fine (record { payload = b.payload; agent_signature = signature })

  unfoldable pub settlement_body :
      Bundle → ExecutionMandate → MerchantPayoutAccount → SettlementBody
  settlement_body b mandate payout = record {
    intent_mandate = b.session.intent_mandate;
    cart_mandate = b.cart;
    execution_mandate = mandate;
    merchant_account = payout.razorpay_account_id;
    payment_id = call.payment_id;
    server_time = call.posting_clock;
  }

  -- Everything before the post: what the call would send.
  unfoldable pub prepared :
      DelegationSession → SessionRegistry → Fallible MeshError (Bundle × SettlementBody)
  unfolding requested_bundle settlement_guards execution_mandate_of settlement_body
  prepared session purchases = do
    b ← requested_bundle session
    payout ← settlement_guards b purchases
    mandate ← execution_mandate_of b b.session.signed_execution_mandate
    fine (b, settlement_body b mandate payout)

  -- Everything after a capture.
  unfoldable pub after_capture : Bundle → ExecutionMandate → Option Text → Mesh → Mesh
  unfolding remember_purchase record_spend consume_settled_reservation
  after_capture b mandate payment_id mesh =
      let id = named_session call.mcp_session_id in
      discard_session_buyer_key b.session mandate (record mesh {
        purchases =
            record_spend id b.cart.total_paise
              (remember_purchase (cart_key b.cart) payment_id id mesh.purchases);
        shelf = consume_settled_reservation b.cart mesh.shelf;
      })

  unfoldable pub answered :
      Bundle → ExecutionMandate → EngineAnswer → Mesh → ToolRun SettlementReceipt
  unfolding after_capture
  answered b mandate (refused status text) mesh = record {
    outcome = thrown (settlement_refused status text);
    mesh = mesh;
  }
  answered b mandate unreadable mesh = record {
    outcome = thrown settlement_unreadable;
    mesh = mesh;
  }
  answered b mandate (captured payment_id) mesh =
      let after = after_capture b mandate payment_id mesh in
      record {
        outcome = fine (record {
          payment_id = payment_id;
          buyer_notice = upcoming_sale_notice b.cart call.notice_clock after;
        });
        mesh = after;
      }

  unfoldable pub post_settlement :
      Engine → Fallible MeshError (Bundle × SettlementBody) → Mesh → ToolRun SettlementReceipt
  unfolding answered
  post_settlement engine (thrown e) mesh = record { outcome = thrown e; mesh = mesh }
  post_settlement engine (fine (b, body)) mesh =
      answered b body.execution_mandate (engine body) mesh

  unfoldable pub settlement_for :
      Engine → Option DelegationSession → Mesh → ToolRun SettlementReceipt
  unfolding prepared post_settlement
  settlement_for engine none mesh = record { outcome = thrown unknown_delegation; mesh = mesh }
  settlement_for engine (some session) mesh =
      post_settlement engine (prepared session mesh.purchases) mesh

  unfoldable pub execute_settlement_for_delegation : Engine → Mesh → ToolRun SettlementReceipt
  unfolding settlement_for
  execute_settlement_for_delegation engine mesh =
      let (found, after) =
        load_delegation_session call.request.delegation_id call.loading_clock mesh in
      settlement_for engine found after
