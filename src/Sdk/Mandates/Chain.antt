-- ===== src/Sdk/Mandates/Chain.antt =====
-- packages/buyerSdkTs/src/agentMandateBuilder.ts: the execution mandate, the amendment mandate, and
-- `verifyMandateChain`, which holds an execution mandate against its intent and its cart.
use razoragent_mesh.Prelude.{
  ℕ, List, [], ◌∷◌, Bool, true, false, ltb, not, ◌==◌, Fallible, fine, thrown, throw_if, ◌>>=◌,
  ◌>>◌,
}
use razoragent_mesh.Prelude.Int.{ℤ}
use razoragent_mesh.Prelude.Text.{Text, codes, text_eq}
use razoragent_mesh.Sdk.Json.{integer, string, object, Fields, no_fields, field}
use razoragent_mesh.Sdk.Keys.{Nacl, AgentKeyManager}
use razoragent_mesh.Sdk.Mandates.{
  IntentMandate, CartMandate, UnsignedExecutionPayload, ExecutionMandate, ExecutionDraws, SdkError,
  execution_fields, signed_intent_fields, signed_cart_fields, compute_mandate_hash, sign_payload,
  build_unsigned_execution_payload,
}

unfoldable pub create_signed_execution_mandate :
    (Text → Text)
    → Nacl
    → IntentMandate
    → CartMandate
    → ℕ
    → Text
    → ExecutionDraws
    → AgentKeyManager
    → Fallible SdkError ExecutionMandate
create_signed_execution_mandate sha256 nacl intent cart amount token draws signer = do
  payload ← build_unsigned_execution_payload sha256 intent cart amount token draws signer.agent_did
  signature ← sign_payload nacl signer (execution_fields payload)
  fine (record { payload = payload; agent_signature = signature })

pub record AmendmentMandate : Type 0 where
  pub amendment_id : Text
  pub amendment_reason : Text
  pub new_cart_mandate_hash : Text
  pub nonce : Text
  pub previous_cart_mandate_hash : Text
  pub price_delta_paise : ℤ
  pub substituted_sku_mapping : List (Text × Text)
  pub agent_signature : Text
  pub merchant_signature : Text
  pub timestamp : ℕ

unfoldable pub mapping_fields : List (Text × Text) → Fields
mapping_fields [] = no_fields
mapping_fields ((sku, substitute) ∷ rest) = field sku (string substitute) (mapping_fields rest)

-- The payload that both sides sign.
unfoldable pub amendment_fields : AmendmentMandate → Fields
unfolding mapping_fields
amendment_fields a = field (codes "amendmentId") (string a.amendment_id) (
    field (codes "amendmentReason") (string a.amendment_reason) (
      field (codes "newCartMandateHash") (string a.new_cart_mandate_hash) (
        field (codes "nonce") (string a.nonce) (
          field (codes "previousCartMandateHash") (string a.previous_cart_mandate_hash) (
            field (codes "priceDeltaPaise") (integer a.price_delta_paise) (
              field (codes "substitutedSkuMapping")
                (object (mapping_fields a.substituted_sku_mapping))
                (field (codes "timestamp") (integer (ℤ.pos a.timestamp)) no_fields)))))))

-- The amendment of the parameters, its id, nonce and time included, but for the hashes and the
-- signatures.
unfoldable pub create_signed_amendment_mandate :
    (Text → Text)
    → Nacl
    → CartMandate
    → CartMandate
    → AmendmentMandate
    → AgentKeyManager
    → AgentKeyManager
    → Fallible SdkError AmendmentMandate
create_signed_amendment_mandate sha256 nacl previous new params buyer_agent_signer merchant_signer =
    do
      previous_hash ← compute_mandate_hash sha256 (signed_cart_fields previous)
      new_hash ← compute_mandate_hash sha256 (signed_cart_fields new)
      let unsigned : AmendmentMandate = record params {
        new_cart_mandate_hash = new_hash;
        previous_cart_mandate_hash = previous_hash;
      }
      agent_signature ← sign_payload nacl buyer_agent_signer (amendment_fields unsigned)
      merchant_signature ← sign_payload nacl merchant_signer (amendment_fields unsigned)
      fine (record unsigned {
        agent_signature = agent_signature;
        merchant_signature = merchant_signature;
      })

-- The `MandateVerificationError`s, and the errors of a hash that throws.
pub data ChainFault : Type 0 where
  intent_hash_mismatch : ChainFault
  cart_hash_mismatch : ChainFault
  amount_mismatch : ChainFault
  over_budget : ChainFault
  over_transaction_limit : ChainFault
  intent_expired : ChainFault
  malformed : SdkError → ChainFault

unfoldable pub hashed : Fallible SdkError Text → Fallible ChainFault Text
hashed (fine h) = fine h
hashed (thrown e) = thrown (malformed e)

module _ (sha256 : Text → Text) (intent : IntentMandate) (cart : CartMandate)
    (p : UnsignedExecutionPayload) where
  unfoldable pub verify_intent_signature : Fallible ChainFault (Unit {0})
  unfolding hashed
  verify_intent_signature = do
    computed ← hashed (compute_mandate_hash sha256 (signed_intent_fields intent))
    throw_if (not (text_eq computed p.intent_mandate_hash)) intent_hash_mismatch

  unfoldable pub verify_cart_signature : Fallible ChainFault (Unit {0})
  unfolding hashed
  verify_cart_signature = do
    computed ← hashed (compute_mandate_hash sha256 (signed_cart_fields cart))
    throw_if (not (text_eq computed p.cart_mandate_hash)) cart_hash_mismatch

  unfoldable pub verify_chain_linkage : Fallible ChainFault (Unit {0})
  verify_chain_linkage = do
    throw_if (not (p.settlement_amount_paise == cart.total_paise)) amount_mismatch
    throw_if (ltb intent.max_budget_paise cart.total_paise) over_budget
    throw_if (ltb intent.single_transaction_limit_paise cart.total_paise) over_transaction_limit
    throw_if (ltb intent.valid_until_timestamp p.timestamp) intent_expired

  -- The `try` block.
  unfoldable pub verified_chain : Fallible ChainFault Bool
  verified_chain = do
    verify_intent_signature
    verify_cart_signature
    verify_chain_linkage
    fine true

-- The `catch` block.
unfoldable pub on_mismatch : Bool → Fallible ChainFault Bool → Fallible ChainFault Bool
on_mismatch raise (fine b) = fine b
on_mismatch raise (thrown (malformed e)) = thrown (malformed e)
on_mismatch true (thrown e) = thrown e
on_mismatch false (thrown e) = fine false

unfoldable pub verify_mandate_chain :
    (Text → Text) → IntentMandate → CartMandate → ExecutionMandate → Bool → Fallible ChainFault Bool
unfolding on_mismatch
verify_mandate_chain sha256 intent cart execution raise =
    on_mismatch raise (verified_chain sha256 intent cart execution.payload)
