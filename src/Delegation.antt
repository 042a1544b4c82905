-- ===== src/Delegation.antt =====
-- packages/mcpServer/src/session/delegationSessionStore.ts without a Redis client, with the constants
-- of constants/mandateToolConstants.ts: the sessions of paired agents, and the state that the mandate
-- tools share. The clock is an argument, in seconds.
pub mod Payout
pub mod Establish
pub mod Cart
pub mod Execution
pub mod Settlement
pub mod Shape
pub mod Single
pub mod Fresh
pub mod Bound
pub mod Reach
pub mod Issuing
pub mod Backed
pub mod Scan
use razoragent_mesh.Prelude.{
  ℕ, List, [], ◌∷◌, Option, none, some, Bool, true, false, leb, if◌then◌else◌, Fallible, fine,
  thrown,
}
use razoragent_mesh.Prelude.Text.{Text, codes}
use razoragent_mesh.Prelude.Dict.{Dict, lookup, insert, erase}
use razoragent_mesh.Crypto.{Hmac, Signer}
use razoragent_mesh.Inventory.Locker.{Shelf}
use razoragent_mesh.Inventory.IssuedQuotes.{IssuedQuoteRegistry}
use razoragent_mesh.Negotiation.AgreedPrices.{AgreedPriceRegistry}
use razoragent_mesh.Quote.Price.{QuoteError}
use razoragent_mesh.Shipping.{UnserviceableReason}
use razoragent_mesh.Session.{SessionRegistry}
use razoragent_mesh.Sdk.Pow.{Digest}
use razoragent_mesh.Sdk.Keys.{Nacl, KeyError}
use razoragent_mesh.Sdk.Mandates.{
  IntentMandate, CartMandate, UnsignedExecutionPayload, ExecutionMandate, SdkError,
}

pub data KeyCustodyMode : Type 0 where
  agent_held mesh_demo_custodial : KeyCustodyMode

abbrev pub proof_max_age_seconds : ℕ
proof_max_age_seconds = 60

abbrev pub proof_max_skew_seconds : ℕ
proof_max_skew_seconds = 5

abbrev pub execution_signing_window_seconds : ℕ
execution_signing_window_seconds = 65

abbrev pub default_merchant_account : Text
default_merchant_account = codes "acc_demoMerchantRazorAgent"

abbrev pub demo_merchant_gstin : Text
demo_merchant_gstin = codes "29AAACR5055K1Z3"

abbrev pub demo_merchant_state_code : Text
demo_merchant_state_code = codes "29"

abbrev pub demo_upi_circle_delegation_token : Text
demo_upi_circle_delegation_token = codes "upi_circle_del_tok_demo_0001"

abbrev pub cart_discount_paise : ℕ
cart_discount_paise = 0

-- A missing `settled` is `false`.
pub record DelegationSession : Type 0 where
  pub delegation_id : Text
  pub user_did : Text
  pub buyer_agent_did : Text
  pub key_custody : KeyCustodyMode
  pub intent_mandate : IntentMandate
  pub expires_at_unix_seconds : ℕ
  pub buyer_secret_key_hex : Option Text
  pub cart_mandate : Option CartMandate
  pub cart_mandate_hash : Option Text
  pub unsigned_execution_payload : Option UnsignedExecutionPayload
  pub execution_canonical_json : Option Text
  pub signed_execution_mandate : Option ExecutionMandate
  pub settled : Bool

abbrev pub Sessions : Type 0
Sessions = Dict DelegationSession

-- The value that a read finds, while it is live.
unfoldable pub live_at : ℕ → Option DelegationSession → Option DelegationSession
live_at now none = none
live_at now (some found) = if leb found.expires_at_unix_seconds now then none else some found

-- `InMemorySessionStore.get`: a read deletes a lapsed entry.
unfoldable pub swept : Text → ℕ → Option DelegationSession → Sessions → Sessions
swept id now none sessions = sessions
swept id now (some found) sessions =
    if leb found.expires_at_unix_seconds now then erase id sessions else sessions

-- What the tools read and write.
pub record Mesh : Type 0 where
  pub sessions : Sessions
  pub shelf : Shelf
  pub quotes : IssuedQuoteRegistry
  pub agreements : AgreedPriceRegistry
  pub purchases : SessionRegistry

unfoldable pub load_delegation_session : Text → ℕ → Mesh → Option DelegationSession × Mesh
unfolding live_at swept
load_delegation_session id now mesh =
    let found = lookup id mesh.sessions in
    (live_at now found, record mesh { sessions = swept id now found mesh.sessions })

unfoldable pub save_delegation_session : DelegationSession → Mesh → Mesh
save_delegation_session session mesh = record mesh {
  sessions = insert session.delegation_id session mesh.sessions;
}

unfoldable pub discard_session_buyer_key : DelegationSession → ExecutionMandate → Mesh → Mesh
unfolding save_delegation_session
discard_session_buyer_key session signed = save_delegation_session (record session {
  buyer_secret_key_hex = none;
  signed_execution_mandate = some signed;
  settled = true;
})

-- What the tools are given: cryptography, the keys of the process, and the account in a merchant's
-- registered profile, where a profile with an account can be read.
pub record Environment : Type 0 where
  pub hmac : Hmac
  pub hmac_secret_key : Text
  pub lock_signer : Signer
  pub nacl : Nacl
  pub sha256 : Digest
  pub merchant_private_key_hex : Text
  pub profile_account : Text → Option Text

pub data MeshError : Type 0 where
  unknown_delegation : MeshError
  delegation_already_settled : MeshError
  no_cart_for_delegation : MeshError
  no_execution_payload : MeshError
  execution_id_mismatch : MeshError
  quote_failed : QuoteError → MeshError
  quote_mismatch : MeshError
  quote_expired : ℕ → MeshError
  lock_signature_invalid : MeshError
  unserviceable_address : Option UnserviceableReason → MeshError
  merchant_payout_unregistered : Text → MeshError
  merchant_account_not_bound : Text → Text → MeshError
  key_failed : KeyError → MeshError
  sdk_failed : SdkError → MeshError
  proof_required : MeshError
  proof_stale : MeshError
  proof_invalid : MeshError
  signature_required : MeshError
  signature_invalid : MeshError
  custody_mismatch : MeshError
  duplicate_purchase_in_session : Text → MeshError
  session_budget_exceeded : ℕ → ℕ → ℕ → MeshError
  settlement_refused : ℕ → Text → MeshError
  settlement_unreadable : MeshError

-- A call of a tool: what it returns or throws, and the state that it leaves.
pub record ToolRun (A : Type 0) : Type 0 where
  pub outcome : Fallible MeshError A
  pub mesh : Mesh

unfoldable pub keyed : {A : Type 0} → Fallible KeyError A → Fallible MeshError A
keyed (fine a) = fine a
keyed (thrown e) = thrown (key_failed e)

unfoldable pub signed_by_sdk : {A : Type 0} → Fallible SdkError A → Fallible MeshError A
signed_by_sdk (fine a) = fine a
signed_by_sdk (thrown e) = thrown (sdk_failed e)

unfoldable pub given {ℓ} : {A : Type ℓ} → Option A → Bool
given none = false
given (some a) = true
