-- ===== src/Sdk/Mandates/Hash.antt =====
-- The hash of an intent, which is always there and does not see the signature, and the hashes that a
-- built payload carries.
use razoragent_mesh.Prelude.{
  ℕ, ◌≡◌, refl, ap, ◌∙◌, List, [], ◌∷◌, Option, none, some, fine, >>=-eq-fine, All,
}
use razoragent_mesh.Prelude.Text.{Text, text_eq}
use razoragent_mesh.Sdk.Json.{
  object, Fields, verify_no_floats, verify_no_floats_items, verify_no_floats_fields,
  normalize_for_jcs, stringify, canonicalize_json_string,
}
use razoragent_mesh.Sdk.Mandates.{
  whole, rate_value, CartItem, IntentMandate, CartMandate, UnsignedExecutionPayload, ExecutionDraws,
  build_unsigned_execution_payload, texts, category_fields, item_fields, item_values, tax_fields,
  intent_fields, cart_fields, signed_intent_fields, signed_cart_fields, is_signature_key,
  unsigned_fields, drifted, compute_mandate_hash,
}

texts-exact : (ts : List Text) → verify_no_floats_items (texts ts) ≡ fine tt
unfolding verify_no_floats texts
texts-exact [] = refl
texts-exact (t ∷ ts) = texts-exact ts

intent_fields-exact : (m : IntentMandate) → verify_no_floats_fields (intent_fields m) ≡ fine tt
unfolding verify_no_floats intent_fields
intent_fields-exact m = rw (texts-exact m.authorized_categories) refl

unsigned-intent : (m : IntentMandate) → unsigned_fields (signed_intent_fields m) ≡ intent_fields m
unfolding unsigned_fields signed_intent_fields intent_fields is_signature_key text_eq
unsigned-intent m = refl

-- Every line of a cart has a whole GST rate.
abbrev pub HasWholeRates : CartMandate → Type 0
HasWholeRates cart = All (λ (i : CartItem). (n : ℕ) × (i.gst_rate_percent ≡ whole n)) cart.items

category_fields-exact : (c : Option Text) → verify_no_floats_fields (category_fields c) ≡ fine tt
unfolding verify_no_floats category_fields
category_fields-exact none = refl
category_fields-exact (some c) = refl

item_fields-exact :
    (i : CartItem) (n : ℕ)
    → i.gst_rate_percent ≡ whole n
    → verify_no_floats_fields (item_fields i) ≡ fine tt
unfolding verify_no_floats item_fields rate_value
item_fields-exact i n e = rw e (category_fields-exact i.category)

item_values-exact :
    (is : List CartItem)
    → All (λ (i : CartItem). (n : ℕ) × (i.gst_rate_percent ≡ whole n)) is
    → verify_no_floats_items (item_values is) ≡ fine tt
unfolding verify_no_floats item_values
item_values-exact [] h = refl
item_values-exact (i ∷ is) ((n, e), h) = rw (item_fields-exact i n e) (item_values-exact is h)

cart_fields-exact :
    (m : CartMandate) → HasWholeRates m → verify_no_floats_fields (cart_fields m) ≡ fine tt
unfolding verify_no_floats cart_fields tax_fields
cart_fields-exact m h = rw (item_values-exact m.items h) refl

unsigned-cart : (m : CartMandate) → unsigned_fields (signed_cart_fields m) ≡ cart_fields m
unfolding unsigned_fields signed_cart_fields cart_fields is_signature_key text_eq
unsigned-cart m = refl

canonical-exact :
    (fs : Fields)
    → verify_no_floats_fields fs ≡ fine tt
    → canonicalize_json_string (object fs) ≡ fine (stringify (normalize_for_jcs (object fs)))
unfolding verify_no_floats canonicalize_json_string
canonical-exact fs h = rw h refl

-- The hash of an intent mandate with its signature is the digest of the canonical text of its
-- payload: no intent makes the canonicalizer throw.
pub compute_mandate_hash-intent :
    (sha256 : Text → Text) (intent : IntentMandate)
    → compute_mandate_hash sha256 (signed_intent_fields intent)
      ≡ fine (sha256 (stringify (normalize_for_jcs (object (intent_fields intent)))))
unfolding compute_mandate_hash drifted
compute_mandate_hash-intent sha256 intent =
    rw (unsigned-intent intent)
      (rw (canonical-exact (intent_fields intent) (intent_fields-exact intent)) refl)

-- The hash of a cart with whole rates is the digest of the canonical text of its payload.
pub compute_mandate_hash-cart :
    (sha256 : Text → Text) (cart : CartMandate)
    → HasWholeRates cart
    → compute_mandate_hash sha256 (signed_cart_fields cart)
      ≡ fine (sha256 (stringify (normalize_for_jcs (object (cart_fields cart)))))
unfolding compute_mandate_hash drifted
compute_mandate_hash-cart sha256 cart h =
    rw (unsigned-cart cart)
      (rw (canonical-exact (cart_fields cart) (cart_fields-exact cart h)) refl)

-- What a payload that is built says.
pub record Built (sha256 : Text → Text) (intent : IntentMandate) (cart : CartMandate) (amount : ℕ)
    (token : Text) (draws : ExecutionDraws) (did : Text) (p : UnsignedExecutionPayload)
    : Type 0 where
  pub intent_hash :
      compute_mandate_hash sha256 (signed_intent_fields intent) ≡ fine p.intent_mandate_hash
  pub cart_hash : compute_mandate_hash sha256 (signed_cart_fields cart) ≡ fine p.cart_mandate_hash
  pub same_amount : p.settlement_amount_paise ≡ amount
  pub same_token : p.upi_circle_token ≡ token
  pub same_did : p.buyer_agent_did ≡ did
  pub same_id : p.execution_id ≡ draws.execution_id
  pub same_time : p.timestamp ≡ draws.timestamp

pub build_unsigned_execution_payload-Built :
    (sha256 : Text → Text) (intent : IntentMandate) (cart : CartMandate) (amount : ℕ) (token : Text)
    (draws : ExecutionDraws) (did : Text) (p : UnsignedExecutionPayload)
    → build_unsigned_execution_payload sha256 intent cart amount token draws did ≡ fine p
    → Built sha256 intent cart amount token draws did p
unfolding build_unsigned_execution_payload
build_unsigned_execution_payload-Built sha256 intent cart amount token draws did p h =
    let (cart_hash, of_cart, rest) =
      >>=-eq-fine (compute_mandate_hash sha256 (signed_cart_fields cart)) _ h in
    let (intent_hash, of_intent, packed) =
      >>=-eq-fine (compute_mandate_hash sha256 (signed_intent_fields intent)) _ rest in
    record {
      intent_hash = of_intent ∙ ap fine (cc);
      cart_hash = of_cart ∙ ap fine (cc);
      same_amount = cc;
      same_token = cc;
      same_did = cc;
      same_id = cc;
      same_time = cc;
    }
