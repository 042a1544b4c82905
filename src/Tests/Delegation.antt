-- ===== src/Tests/Delegation.antt =====
-- A paired agent, its cart and its settlement, with stand-ins for the cryptography.
use razoragent_mesh.Prelude.{◌≡◌, refl, [], ◌∷◌, ◌++◌, none, some, true, false, fine}
use razoragent_mesh.Prelude.Text.{
  Text, codes, text_eq, trim, trim_start, is_space, lower, lower_case,
}
use razoragent_mesh.Prelude.Dict.{lookup}
use razoragent_mesh.Inventory.Locker.{initial_locker}
use razoragent_mesh.Session.{
  SessionRegistry, find_prior_purchase, prior_purchase, clear_session_purchases, read_session_spend,
  spend_state,
}
use razoragent_mesh.Sdk.Pow.{zeros}
use razoragent_mesh.Sdk.Json.{
  verify_no_floats, canonicalize_json_string, object, normalize_for_jcs, stringify,
}
use razoragent_mesh.Sdk.Keys.{
  Nacl, did_prefix, is_hex_digit, is_hex, is_hex_of, format_agent_did, manager_of, from_seed,
  from_secret_key, sign_canonical_bytes,
}
use razoragent_mesh.Sdk.Mandates.{
  whole, IntentMandate, CartMandate, UnsignedExecutionPayload, ExecutionMandate, ExecutionDraws,
  drifted, compute_mandate_hash, execution_fields, sign_payload, signed_cart_fields,
  signed_intent_fields, build_unsigned_execution_payload, texts, item_values, item_fields,
  category_fields, tax_fields, cart_fields, intent_fields, unsigned_fields, is_signature_key,
}
use razoragent_mesh.Delegation.{
  mesh_demo_custodial, DelegationSession, Mesh, Environment, keyed, signed_by_sdk,
  default_merchant_account, demo_upi_circle_delegation_token, live_at, swept,
  load_delegation_session,
}
use razoragent_mesh.Delegation.Payout.{
  mesh_merchant_did, resolve_merchant_payout_account, assert_requested_merchant_account_matches,
}
use razoragent_mesh.Delegation.Execution.{execution_payload, issued_payload_of, issued_payload}
use razoragent_mesh.Delegation.Settlement.{
  SettlementBody, captured, Engine, cart_key, named_session, reject_known,
  reject_duplicate_purchase, within_spend, reject_over_session_budget,
}
use razoragent_mesh.Delegation.Settlement.Run.{
  Bundle, SettlementCall, bundle_of, requested_bundle, settlement_guards, resolve_agent_signature,
  execution_mandate_of, settlement_body, prepared,
}
use razoragent_mesh.Tests.Data.{tea, shop}
use razoragent_mesh.Tests.LockTool.{pen}
use razoragent_mesh.Tests.Quote.{tag, secret}

-- A key pair is its seed twice, every signature is a fixed text, and every check of one passes.
abbrev pub stamp : Nacl
stamp = record {
  key_pair_from_seed = λ s. record { public_key_hex = s; secret_key_hex = s ++ s };
  key_pair_from_secret_key = λ s. record { public_key_hex = zeros 64; secret_key_hex = s };
  detached = λ message key. codes "signed";
  verify = λ message signature key. true;
}

abbrev pub world : Environment
world = record {
  hmac = tag;
  hmac_secret_key = secret;
  lock_signer = pen;
  nacl = stamp;
  sha256 = λ text. codes "digest";
  merchant_private_key_hex = zeros 64;
  profile_account = λ did. some (codes "acc_other");
}

abbrev pub mesh_did : Text
mesh_did = did_prefix ++ zeros 64

abbrev pub allowance : IntentMandate
allowance = record {
  mandate_id = codes "mandate_intent_1";
  user_did = codes "did:agent:user";
  delegated_agent_did = codes "did:agent:buyer";
  max_budget_paise = 200000;
  authorized_categories = [];
  valid_until_timestamp = 5000;
  upi_circle_delegation_token = demo_upi_circle_delegation_token;
  single_transaction_limit_paise = 150000;
  nonce = codes "n1";
  timestamp = 1000;
  user_signature = codes "signed";
}

abbrev pub tea_cart : CartMandate
tea_cart = record {
  cart_id = codes "mandate_cart_1";
  merchant_did = mesh_did;
  merchant_gstin = codes "29AAACR5055K1Z3";
  merchant_state_code = codes "29";
  buyer_delivery_pincode = codes "411001";
  buyer_delivery_state_code = codes "27";
  items =
      record {
        sku_id = tea;
        quantity = 1;
        unit_price_paise = 100000;
        hsn_code = codes "0902";
        gst_rate_percent = whole 5;
        line_total_paise = 100000;
        category = some (codes "Grocery");
      }
      ∷ [];
  taxable_subtotal_paise = 100000;
  tax_breakdown = record {
    cgst_paise = 0;
    sgst_paise = 0;
    igst_paise = 5000;
    total_tax_paise = 5000;
  };
  shipping_paise = 6000;
  discount_paise = 0;
  total_paise = 111000;
  inventory_lock_token = codes "lock1";
  inventory_lock_expires_at = 1100;
  nonce = codes "n2";
  timestamp = 1001;
  merchant_signature = codes "signed";
}

abbrev pub paired : DelegationSession
paired = record {
  delegation_id = codes "dlg_1";
  user_did = codes "did:agent:user";
  buyer_agent_did = codes "did:agent:buyer";
  key_custody = mesh_demo_custodial;
  intent_mandate = allowance;
  expires_at_unix_seconds = 5000;
  buyer_secret_key_hex = some (zeros 128);
  cart_mandate = some tea_cart;
  cart_mandate_hash = some (codes "digest");
  unsigned_execution_payload = none;
  execution_canonical_json = none;
  signed_execution_mandate = none;
  settled = false;
}

abbrev pub drawn : ExecutionDraws
drawn = record { execution_id = codes "mandate_exec_1"; nonce = codes "n3"; timestamp = 1002 }

abbrev pub tea_payload : UnsignedExecutionPayload
tea_payload = record {
  execution_id = codes "mandate_exec_1";
  buyer_agent_did = codes "did:agent:buyer";
  intent_mandate_hash = codes "digest";
  cart_mandate_hash = codes "digest";
  settlement_amount_paise = 111000;
  upi_circle_token = demo_upi_circle_delegation_token;
  nonce = codes "n3";
  timestamp = 1002;
}

abbrev pub tea_text : Text
tea_text = stringify (normalize_for_jcs (object (execution_fields tea_payload)))

pub tea_issued : issued_payload world drawn paired ≡ fine (tea_payload, tea_text)
unfolding issued_payload issued_payload_of execution_payload signed_by_sdk drifted
    build_unsigned_execution_payload compute_mandate_hash canonicalize_json_string verify_no_floats
    execution_fields signed_cart_fields signed_intent_fields texts item_values item_fields
    category_fields tax_fields cart_fields intent_fields unsigned_fields is_signature_key text_eq
tea_issued = refl

abbrev pub ready : DelegationSession
ready = record paired {
  unsigned_execution_payload = some tea_payload;
  execution_canonical_json = some tea_text;
}

abbrev pub tea_mandate : ExecutionMandate
tea_mandate = record { payload = tea_payload; agent_signature = codes "signed" }

abbrev pub spent : DelegationSession
spent = record ready {
  buyer_secret_key_hex = none;
  signed_execution_mandate = some tea_mandate;
  settled = true;
}

abbrev pub purchases : SessionRegistry
purchases = record clear_session_purchases { session_ceiling_paise = (codes "s1", 200000) ∷ [] }

abbrev pub holding : DelegationSession → Mesh
holding s = record {
  sessions = (codes "dlg_1", s) ∷ [];
  shelf = record { store = shop; locker = initial_locker };
  quotes = [];
  agreements = [];
  purchases = purchases;
}

abbrev pub buy : SettlementCall
buy = record {
  request = record {
    delegation_id = codes "dlg_1";
    execution_id = codes "mandate_exec_1";
    agent_signature = none;
    merchant_account = some default_merchant_account;
    allow_repeat_purchase = false;
  };
  mcp_session_id = some (codes "s1");
  payment_id = codes "pay_1";
  loading_clock = 1003;
  posting_clock = 1004;
  notice_clock = 1005;
}

abbrev pub bundle : DelegationSession → Bundle
bundle s = record { session = s; payload = tea_payload; cart = tea_cart }

abbrev pub tea_body : SettlementBody
tea_body = record {
  intent_mandate = allowance;
  cart_mandate = tea_cart;
  execution_mandate = tea_mandate;
  merchant_account = default_merchant_account;
  payment_id = codes "pay_1";
  server_time = 1004;
}

abbrev pub capturing : Engine
capturing = λ body. captured (some body.payment_id)

pub mesh_did-own : mesh_merchant_did world ≡ fine mesh_did
unfolding mesh_merchant_did keyed from_seed manager_of format_agent_did is_hex_of is_hex
    is_hex_digit trim trim_start is_space lower lower_case zeros
mesh_did-own = refl

pub ready-prepared : prepared world buy ready purchases ≡ fine (bundle ready, tea_body)
unfolding prepared requested_bundle bundle_of settlement_guards resolve_merchant_payout_account
    mesh_merchant_did from_seed assert_requested_merchant_account_matches reject_duplicate_purchase
    reject_known reject_over_session_budget within_spend read_session_spend spend_state
    find_prior_purchase prior_purchase execution_mandate_of resolve_agent_signature settlement_body
    named_session cart_key keyed signed_by_sdk drifted sign_payload sign_canonical_bytes
    canonicalize_json_string verify_no_floats execution_fields lookup text_eq from_secret_key
    manager_of format_agent_did is_hex_of is_hex is_hex_digit trim trim_start is_space lower
    lower_case zeros
ready-prepared = refl

pub spent-prepared : prepared world buy spent purchases ≡ fine (bundle spent, tea_body)
unfolding prepared requested_bundle bundle_of settlement_guards resolve_merchant_payout_account
    mesh_merchant_did from_seed assert_requested_merchant_account_matches reject_duplicate_purchase
    reject_known reject_over_session_budget within_spend read_session_spend spend_state
    find_prior_purchase prior_purchase execution_mandate_of settlement_body named_session cart_key
    keyed lookup text_eq manager_of format_agent_did is_hex_of is_hex is_hex_digit trim trim_start
    is_space lower lower_case zeros
spent-prepared = refl

pub found :
    (s : DelegationSession)
    → s.expires_at_unix_seconds ≡ 5000
    → load_delegation_session (codes "dlg_1") 1003 (holding s) ≡ (some s, holding s)
unfolding load_delegation_session live_at swept lookup text_eq
found s e = rw e refl
