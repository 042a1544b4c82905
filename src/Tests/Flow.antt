-- ===== src/Tests/Flow.antt =====
-- The theorems on delegations at the example session.
use razoragent_mesh.Prelude.{
  ℕ, ap, ◌+◌, ◌≤◌, ◌≡◌, ◌↔◌, ◌⊎◌, refl, [], ◌==◌, Option, none, some, true, false, fine, arith,
}
use razoragent_mesh.Prelude.Text.{Text, codes}
use razoragent_mesh.Session.{SessionSpendState, read_session_spend, spend_state}
use razoragent_mesh.Prelude.Dict.{lookup}
use razoragent_mesh.Prelude.Text.{text_eq}
use razoragent_mesh.Sdk.Pow.{zeros}
use razoragent_mesh.Sdk.Json.{canonicalize_json_string, verify_no_floats}
use razoragent_mesh.Sdk.Mandates.{
  signed_intent_fields, signed_cart_fields, compute_mandate_hash, execution_fields, drifted,
  intent_fields, texts, unsigned_fields, is_signature_key,
}
use razoragent_mesh.Sdk.Mandates.Chain.{verify_mandate_chain}
use razoragent_mesh.Sdk.Mandates.Linked.{Reported, IsWithin, verify_mandate_chain_iff}
use razoragent_mesh.Delegation.{mesh_demo_custodial, Mesh}
use razoragent_mesh.Delegation.Establish.{
  EstablishDelegationRequest, EstablishDraws, establish_agent_delegation,
}
use razoragent_mesh.Delegation.Cart.{
  CreateCartMandateRequest, CartDraws, matched_expiry, create_cart_mandate_for_delegation,
}
use razoragent_mesh.Delegation.Execution.{issued_session, sign_execution_mandate_for_delegation}
use razoragent_mesh.Delegation.Settlement.{
  named_session, SettlementBody, captured, SettlementReceipt, BuyerNotice, upcoming_sale_notice,
}
use razoragent_mesh.Delegation.Settlement.Run.{
  after_capture, post_settlement, answered, settlement_for, execute_settlement_for_delegation,
}
use razoragent_mesh.Delegation.Settlement.Ceiling.{IsCharged, execute_settlement-in_ceiling}
use razoragent_mesh.Delegation.Settlement.Destination.{IsPayoutOf, prepared-pays_the_signer}
use razoragent_mesh.Delegation.Shape.{AreSound}
use razoragent_mesh.Delegation.Reach.{
  started, stepped, establish, create_cart, sign_execution, settle, reachable-AreSound,
}
use razoragent_mesh.Delegation.Single.{settled-replays}
use razoragent_mesh.Delegation.Fresh.{fresh_bundle_verifies}
use razoragent_mesh.Delegation.Scan.{matched_expiry_found}
use razoragent_mesh.Tests.Data.{tea}
use razoragent_mesh.Tests.Quote.{before}
use razoragent_mesh.Tests.Delegation.{
  world, mesh_did, allowance, tea_cart, paired, drawn, tea_payload, tea_text, tea_issued, ready,
  tea_mandate, spent, purchases, holding, buy, bundle, tea_body, capturing, mesh_did-own,
  ready-prepared, spent-prepared, found,
}

verify_mandate_chain_iff_example :
    ((verify_mandate_chain world.sha256 allowance tea_cart tea_mandate true ≡ fine true) ↔ (
      (compute_mandate_hash world.sha256 (signed_intent_fields allowance) ≡ fine (codes "digest"))
      × (compute_mandate_hash world.sha256 (signed_cart_fields tea_cart) ≡ fine (codes "digest"))
      × IsWithin allowance tea_cart tea_payload))
    × Reported world.sha256 allowance tea_cart
        (verify_mandate_chain world.sha256 allowance tea_cart tea_mandate false)
verify_mandate_chain_iff_example =
    verify_mandate_chain_iff world.sha256 allowance tea_cart tea_mandate true

abbrev opening : SessionSpendState
opening = record { ceiling_paise = 200000; spent_paise = 0; remaining_paise = 200000 }

abbrev notice : Option BuyerNotice
notice =
    upcoming_sale_notice tea_cart 1005
      (after_capture world buy (bundle ready) tea_mandate (some (codes "pay_1")) (holding ready))

abbrev receipt : SettlementReceipt
receipt = record { payment_id = some (codes "pay_1"); buyer_notice = notice }

settled_once :
    (execute_settlement_for_delegation world buy capturing (holding ready)).outcome ≡ fine receipt
unfolding execute_settlement_for_delegation settlement_for post_settlement answered
settled_once = rw (found ready refl, ready-prepared) refl

prepared-pays_the_signer_example :
    (ready.cart_mandate ≡ some tea_cart)
    × IsPayoutOf world mesh_did mesh_did (tea_body.merchant_account)
    × ((buy.request.merchant_account ≡ none)
        ⊎ (buy.request.merchant_account ≡ some (tea_body.merchant_account)))
prepared-pays_the_signer_example =
    prepared-pays_the_signer world buy ready purchases (bundle ready) tea_body mesh_did mesh_did-own
      ready-prepared

fresh_bundle_verifies_example :
    (verify_mandate_chain world.sha256 allowance tea_cart tea_mandate true ≡ fine true)
    ↔ ((111000 ≤ 200000) × (111000 ≤ 150000) × (1002 ≤ 5000))
unfolding issued_session
fresh_bundle_verifies_example =
    fresh_bundle_verifies world drawn paired tea_payload tea_text buy purchases (bundle ready)
      tea_body true tea_issued ready-prepared

matched_expiry_found_example :
    ((f : ℕ) × (matched_expiry (λ e. e == 1030) none 1000 ≡ some f)
      × (1030 ≤ f)
      × (f ≤ 1062)
      × ((f == 1030) ≡ true))
    × ((matched_expiry (λ e. e == 1030) (some 1040) 1000 ≡ none)
        ⊎ ((f : ℕ) × (matched_expiry (λ e. e == 1030) (some 1040) 1000 ≡ some f)
            × ((f == 1030) ≡ true)))
matched_expiry_found_example =
    matched_expiry_found (λ e. e == 1030) 1000 1030 (some 1040) (omega arith) (omega arith) refl

abbrev pub order : CreateCartMandateRequest
order = record {
  delegation_id = codes "dlg_1";
  sku_id = tea;
  quantity = 1;
  delivery_pincode = codes "411001";
  delivery_state_code = codes "27";
  promo_code = none;
  quote_hash = codes "zz";
  quote_expiry_timestamp = none;
  lock_token = codes "lock1";
  fencing_token = 1;
  lock_expires_at_unix_ms = 1100000;
  lock_signature = codes "signed";
  merchant_account = none;
}

abbrev pub cart_draws : CartDraws
cart_draws = record {
  cart_id = codes "mandate_cart_1";
  nonce = codes "n2";
  loading = 1003;
  quoting = before;
  reconciling = 500;
  signing = 1003;
}

execute_settlement-in_ceiling_example :
    (body : SettlementBody) × (payment_id : Option Text) × (capturing body ≡ captured payment_id)
    × IsCharged
        (codes "s1")
        body.cart_mandate.total_paise
        purchases
        ((execute_settlement_for_delegation world buy capturing (holding ready)).mesh).purchases
        opening
    × (0 + body.cart_mandate.total_paise ≤ 200000)
unfolding named_session read_session_spend spend_state lookup text_eq
execute_settlement-in_ceiling_example =
    execute_settlement-in_ceiling world buy capturing (holding ready) receipt (codes "s1") opening
      refl settled_once refl

spent-AreSound : AreSound world (holding spent).sessions
unfolding canonicalize_json_string verify_no_floats execution_fields compute_mandate_hash drifted
    signed_intent_fields intent_fields texts unsigned_fields is_signature_key text_eq
spent-AreSound = (
  record {
    own_id = refl;
    settled_shape = tt;
    custody_shape = tt;
    payload_shape = (refl, refl, refl, (tea_text, refl, refl));
    bundle_shape = refl;
  },
  tt,
)

settled-replays_example :
    (spent.signed_execution_mandate ≡ some tea_mandate)
    × (allowance ≡ allowance)
    × (spent.cart_mandate ≡ some tea_cart)
    × (spent.unsigned_execution_payload ≡ some tea_payload)
    × (codes "mandate_exec_1" ≡ codes "mandate_exec_1")
settled-replays_example =
    settled-replays world buy (holding spent) spent (bundle spent) tea_body spent-AreSound
      (ap (λ r. r.0) (found spent refl)) refl spent-prepared

abbrev pairing : EstablishDelegationRequest
pairing = record {
  key_custody = mesh_demo_custodial;
  buyer_agent_id = none;
  proof_signature = none;
  proof_nonce = none;
  proof_timestamp = none;
  max_budget_paise = 200000;
  single_transaction_limit_paise = 150000;
  authorized_categories = [];
  validity_seconds = 4000;
}

abbrev pair_draws : EstablishDraws
pair_draws = record {
  buyer_pair = record { public_key_hex = zeros 64; secret_key_hex = zeros 128 };
  user_pair = record { public_key_hex = zeros 64; secret_key_hex = zeros 128 };
  delegation_id = codes "dlg_1";
  mandate_id = codes "mandate_intent_1";
  nonce = codes "n1";
  proof_clock = 1000;
  validity_clock = 1000;
  signing_clock = 1000;
}

abbrev empty_mesh : Mesh
empty_mesh = record (holding spent) { sessions = [] }

abbrev after_pairing : Mesh
after_pairing =
    (establish_agent_delegation world pairing pair_draws (some (codes "s1")) empty_mesh).mesh

abbrev after_cart : Mesh
after_cart = (create_cart_mandate_for_delegation world order cart_draws after_pairing).mesh

abbrev after_signing : Mesh
after_signing =
    (sign_execution_mandate_for_delegation world drawn (codes "dlg_1") 1003 after_cart).mesh

abbrev after_settling : Mesh
after_settling = (execute_settlement_for_delegation world buy capturing after_signing).mesh

reachable-AreSound_example : AreSound world after_settling.sessions
reachable-AreSound_example = reachable-AreSound world after_settling (
    stepped
      (stepped
        (stepped
          (stepped (started {mesh = empty_mesh} refl) (
            establish {before = empty_mesh} {after = after_pairing} pairing pair_draws
              (some (codes "s1")) refl))
          (create_cart {before = after_pairing} {after = after_cart} order cart_draws refl))
        (sign_execution {before = after_cart} {after = after_signing} drawn (codes "dlg_1") 1003
          refl))
      (settle {before = after_signing} {after = after_settling} buy capturing refl))
