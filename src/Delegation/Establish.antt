-- ===== src/Delegation/Establish.antt =====
-- packages/mcpServer/src/tools/delegationEstablisher.ts: pairing. The request has passed
-- establishDelegationSchema.ts, whose texts are not empty. The random keys, ids and nonces are
-- arguments; the disclosures of the response are left out.
use razoragent_mesh.Prelude.{
  ℕ, ◌+◌, min, List, [], ◌∷◌, Option, none, some, false, not, ◌||◌, ltb, or_else, Fallible, fine,
  thrown, throw_if, ◌>>=◌, ◌>>◌,
}
use razoragent_mesh.Prelude.Int.{pos}
use razoragent_mesh.Prelude.Text.{Text, codes}
use razoragent_mesh.Session.{SessionRegistry, declare_session_ceiling}
use razoragent_mesh.Sdk.Json.{
  integer, string, object, Fields, no_fields, field, canonicalize_json_string,
}
use razoragent_mesh.Sdk.Keys.{KeyPair, manager_of, extract_public_key_from_did, verify_signature}
use razoragent_mesh.Sdk.Mandates.{IntentMandate, drifted, create_signed_intent_mandate}
use razoragent_mesh.Delegation.{
  KeyCustodyMode, agent_held, mesh_demo_custodial, DelegationSession, Mesh, Environment, MeshError,
  proof_required, proof_stale, proof_invalid, ToolRun, keyed, signed_by_sdk, given,
  save_delegation_session, demo_upi_circle_delegation_token, proof_max_age_seconds,
  proof_max_skew_seconds,
}

pub record EstablishDelegationRequest : Type 0 where
  pub key_custody : KeyCustodyMode
  pub buyer_agent_id : Option Text
  pub proof_signature : Option Text
  pub proof_nonce : Option Text
  pub proof_timestamp : Option ℕ
  pub max_budget_paise : ℕ
  pub single_transaction_limit_paise : ℕ
  pub authorized_categories : List Text
  pub validity_seconds : ℕ

-- The random draws, and the clock in seconds at each reading.
pub record EstablishDraws : Type 0 where
  pub buyer_pair : KeyPair
  pub user_pair : KeyPair
  pub delegation_id : Text
  pub mandate_id : Text
  pub nonce : Text
  pub proof_clock : ℕ
  pub validity_clock : ℕ
  pub signing_clock : ℕ

pub record BuyerIdentity : Type 0 where
  pub buyer_agent_did : Text
  pub buyer_secret_key_hex : Option Text

pub record DelegationResponse : Type 0 where
  pub delegation_id : Text
  pub intent_mandate : IntentMandate
  pub key_custody : KeyCustodyMode
  pub buyer_private_key_hex : Option Text
  pub max_budget_paise : ℕ
  pub single_transaction_limit_paise : ℕ
  pub valid_until_timestamp : ℕ

unfoldable pub build_possession_proof_payload : EstablishDelegationRequest → Fields
build_possession_proof_payload r =
    field (codes "buyerAgentId") (string (or_else r.buyer_agent_id [])) (
      field (codes "maxBudgetPaise") (integer (pos r.max_budget_paise)) (
        field (codes "nonce") (string (or_else r.proof_nonce [])) (
          field (codes "singleTransactionLimitPaise")
            (integer (pos r.single_transaction_limit_paise))
            (field (codes "timestamp") (integer (pos (or_else r.proof_timestamp 0))) no_fields))))

-- `!mcpSessionId`: an empty id is none.
unfoldable pub declare_ceiling : Option Text → ℕ → SessionRegistry → SessionRegistry
declare_ceiling none budget purchases = purchases
declare_ceiling (some []) budget purchases = purchases
declare_ceiling (some (c ∷ id)) budget purchases = declare_session_ceiling (c ∷ id) budget purchases

module _ (env : Environment) (r : EstablishDelegationRequest) (draws : EstablishDraws) where
  unfoldable pub verify_possession_proof : Fallible MeshError Text
  unfolding given keyed signed_by_sdk drifted build_possession_proof_payload
  verify_possession_proof = do
    throw_if
        (not (given r.buyer_agent_id)
          || not (given r.proof_signature)
          || not (given r.proof_nonce)
          || not (given r.proof_timestamp))
        proof_required
    let did = or_else r.buyer_agent_id []
    let timestamp : ℕ = or_else r.proof_timestamp 0
    throw_if
        (ltb (timestamp + proof_max_age_seconds) draws.proof_clock
          || ltb (draws.proof_clock + proof_max_skew_seconds) timestamp)
        proof_stale
    public_key ← keyed (extract_public_key_from_did did)
    canonical ←
        signed_by_sdk
          (drifted (canonicalize_json_string (object (build_possession_proof_payload r))))
    throw_if (not (verify_signature env.nacl canonical (or_else r.proof_signature []) public_key))
        proof_invalid
    fine did

  unfoldable pub resolve_buyer_identity_by : KeyCustodyMode → Fallible MeshError BuyerIdentity
  unfolding verify_possession_proof
  resolve_buyer_identity_by agent_held = do
    did ← verify_possession_proof
    fine (record { buyer_agent_did = did; buyer_secret_key_hex = none })
  resolve_buyer_identity_by mesh_demo_custodial = do
    signer ← keyed (manager_of draws.buyer_pair)
    fine (record {
      buyer_agent_did = signer.agent_did;
      buyer_secret_key_hex = some (signer.pair.secret_key_hex);
    })

  -- The intent of the request; the signer sets the user and the signature.
  unfoldable pub intent_params : BuyerIdentity → IntentMandate
  intent_params buyer = record {
    mandate_id = draws.mandate_id;
    user_did = [];
    delegated_agent_did = buyer.buyer_agent_did;
    max_budget_paise = r.max_budget_paise;
    authorized_categories = r.authorized_categories;
    valid_until_timestamp = draws.validity_clock + r.validity_seconds;
    upi_circle_delegation_token = demo_upi_circle_delegation_token;
    single_transaction_limit_paise = min r.single_transaction_limit_paise r.max_budget_paise;
    nonce = draws.nonce;
    timestamp = draws.signing_clock;
    user_signature = [];
  }

  unfoldable pub paired_session : BuyerIdentity → IntentMandate → DelegationSession
  paired_session buyer intent = record {
    delegation_id = draws.delegation_id;
    user_did = intent.user_did;
    buyer_agent_did = buyer.buyer_agent_did;
    key_custody = r.key_custody;
    intent_mandate = intent;
    expires_at_unix_seconds = draws.validity_clock + r.validity_seconds;
    buyer_secret_key_hex = buyer.buyer_secret_key_hex;
    cart_mandate = none;
    cart_mandate_hash = none;
    unsigned_execution_payload = none;
    execution_canonical_json = none;
    signed_execution_mandate = none;
    settled = false;
  }

  -- The session to store, or the refusal.
  unfoldable pub pair_agent : Fallible MeshError DelegationSession
  unfolding resolve_buyer_identity_by intent_params paired_session
  pair_agent = do
    buyer ← resolve_buyer_identity_by r.key_custody
    user_signer ← keyed (manager_of draws.user_pair)
    intent ← signed_by_sdk (create_signed_intent_mandate env.nacl (intent_params buyer) user_signer)
    fine (paired_session buyer intent)

  -- `_buildDelegationResponse`
  unfoldable pub build_delegation_response : DelegationSession → DelegationResponse
  build_delegation_response s = record {
    delegation_id = s.delegation_id;
    intent_mandate = s.intent_mandate;
    key_custody = s.key_custody;
    buyer_private_key_hex = s.buyer_secret_key_hex;
    max_budget_paise = r.max_budget_paise;
    single_transaction_limit_paise = s.intent_mandate.single_transaction_limit_paise;
    valid_until_timestamp = s.expires_at_unix_seconds;
  }

  unfoldable pub store_paired :
      Fallible MeshError DelegationSession → Mesh → ToolRun DelegationResponse
  unfolding build_delegation_response
  store_paired (thrown e) mesh = record { outcome = thrown e; mesh = mesh }
  store_paired (fine s) mesh = record {
    outcome = fine (build_delegation_response s);
    mesh = save_delegation_session s mesh;
  }

  -- The ceiling is declared before the identity is verified.
  unfoldable pub establish_agent_delegation : Option Text → Mesh → ToolRun DelegationResponse
  unfolding declare_ceiling pair_agent store_paired
  establish_agent_delegation mcp_session_id mesh =
      store_paired pair_agent (record mesh {
        purchases = declare_ceiling mcp_session_id r.max_budget_paise mesh.purchases;
      })
