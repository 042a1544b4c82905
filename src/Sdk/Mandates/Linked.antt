-- ===== src/Sdk/Mandates/Linked.antt =====
-- When `verifyMandateChain` says that a chain holds.
use razoragent_mesh.Prelude.{
  ◌≤◌, ◌≡◌, ◌≢◌, ap, ◌↔◌, ◌⊎◌, inl, inr, refl, sym, ◌∙◌, Bool, true, false, not, Bool-cases,
  Fallible, fine, thrown, throw_if, ◌>>◌, arith,
}
use razoragent_mesh.Prelude.Text.{Text, text_eq, text_eq_iff}
use razoragent_mesh.Sdk.Json.{object, normalize_for_jcs, stringify}
use razoragent_mesh.Sdk.Mandates.{
  IntentMandate, CartMandate, UnsignedExecutionPayload, ExecutionMandate, intent_fields,
  signed_intent_fields, signed_cart_fields, compute_mandate_hash, SdkError,
}
use razoragent_mesh.Sdk.Mandates.Hash.{
  HasWholeRates, compute_mandate_hash-intent, compute_mandate_hash-cart,
}
use razoragent_mesh.Sdk.Mandates.Chain.{
  ChainFault, intent_hash_mismatch, cart_hash_mismatch, malformed, hashed, verify_intent_signature,
  verify_cart_signature, verify_chain_linkage, verified_chain, on_mismatch, verify_mandate_chain,
}

-- The digest that the payload has to carry.
abbrev intent_digest : (Text → Text) → IntentMandate → Text
intent_digest sha256 m = sha256 (stringify (normalize_for_jcs (object (intent_fields m))))

-- The amount is the cart's total, within the budget and the limit, before the intent lapses.
abbrev pub IsWithin : IntentMandate → CartMandate → UnsignedExecutionPayload → Type 0
IsWithin intent cart p =
    (p.settlement_amount_paise ≡ cart.total_paise)
    × (cart.total_paise ≤ intent.max_budget_paise)
    × (cart.total_paise ≤ intent.single_transaction_limit_paise)
    × (p.timestamp ≤ intent.valid_until_timestamp)

module _ (sha256 : Text → Text) (intent : IntentMandate) (cart : CartMandate) where
  module _ (p : UnsignedExecutionPayload) where
    intent_step :
        verify_intent_signature sha256 intent cart p
        ≡ throw_if
            (not (text_eq (intent_digest sha256 intent) p.intent_mandate_hash))
            intent_hash_mismatch
    unfolding verify_intent_signature hashed
    intent_step = rw (compute_mandate_hash-intent sha256 intent) refl

    cart_step :
        (digest : Text)
        → compute_mandate_hash sha256 (signed_cart_fields cart) ≡ fine digest
        → verify_cart_signature sha256 intent cart p
          ≡ throw_if (not (text_eq digest p.cart_mandate_hash)) cart_hash_mismatch
    unfolding verify_cart_signature hashed
    cart_step digest h = rw h refl

    cart_fault :
        (e : SdkError)
        → compute_mandate_hash sha256 (signed_cart_fields cart) ≡ thrown e
        → verify_cart_signature sha256 intent cart p ≡ thrown (malformed e)
    unfolding verify_cart_signature hashed
    cart_fault e h = rw h refl

    linkage_step :
        (raise : Bool)
        → (on_mismatch raise (verify_chain_linkage sha256 intent cart p >> fine true) ≡ fine true)
          ↔ IsWithin intent cart p
    unfolding on_mismatch verify_chain_linkage
    linkage_step raise = ground arith

    linkage_answers :
        (on_mismatch false (verify_chain_linkage sha256 intent cart p >> fine true) ≡ fine true)
        ⊎ (on_mismatch false (verify_chain_linkage sha256 intent cart p >> fine true) ≡ fine false)
    unfolding on_mismatch verify_chain_linkage
    linkage_answers = ground arith

  answered : {A B R : Type 0} → A ⊎ B → A ⊎ B ⊎ R
  answered (inl a) = inl a
  answered (inr b) = inr (inl b)

  differ : (s t : Text) → text_eq s t ≡ false → Path (Fallible SdkError Text) (fine s) (fine t) → ⊥
  differ s t e h = let same : s ≡ t = cc in let equal = (text_eq_iff s t).1 same in cc

  mismatched :
      (raise : Bool) (fault : ChainFault)
      → fault ≡ intent_hash_mismatch ⊎ fault ≡ cart_hash_mismatch
      → (on_mismatch raise (thrown fault) ≢ fine true)
        × (on_mismatch false (thrown fault) ≡ fine false)
  unfolding on_mismatch
  mismatched true fault h = ground arith
  mismatched false fault h = ground arith

  rethrown :
      (raise : Bool) (e : SdkError)
      → on_mismatch raise (thrown (malformed e)) ≡ thrown (malformed e)
  unfolding on_mismatch
  rethrown true e = refl
  rethrown false e = refl

  differ_thrown : (s : Text) (e : SdkError) → Path (Fallible SdkError Text) (fine s) (thrown e) → ⊥
  differ_thrown s e h = cc

  -- An answer, or the error of a cart that has no hash.
  abbrev pub Reported : Fallible ChainFault Bool → Type 0
  Reported answer =
      (answer ≡ fine true)
      ⊎ (answer ≡ fine false)
      ⊎ ((e : SdkError) × (answer ≡ thrown (malformed e))
          × (compute_mandate_hash sha256 (signed_cart_fields cart) ≡ thrown e)
          × (HasWholeRates cart → ⊥))

  abbrev Linked : ExecutionMandate → Bool → Type 0
  Linked execution raise =
      ((verify_mandate_chain sha256 intent cart execution raise ≡ fine true) ↔ (
        (compute_mandate_hash sha256 (signed_intent_fields intent)
          ≡ fine execution.payload.intent_mandate_hash)
        × (compute_mandate_hash sha256 (signed_cart_fields cart)
            ≡ fine execution.payload.cart_mandate_hash)
        × IsWithin intent cart execution.payload))
      × Reported (verify_mandate_chain sha256 intent cart execution false)

  hashed_cart :
      (execution : ExecutionMandate) (raise : Bool) (digest : Text)
      → compute_mandate_hash sha256 (signed_cart_fields cart) ≡ fine digest
      → Linked execution raise
  unfolding verify_mandate_chain verified_chain
  hashed_cart execution raise digest h =
      let p = execution.payload in
      rw (intent_step p, cart_step p digest h, compute_mandate_hash-intent sha256 intent, h)
        (elim (Bool-cases (text_eq (intent_digest sha256 intent) p.intent_mandate_hash)) [
          | inl e ↦ elim (Bool-cases (text_eq digest p.cart_mandate_hash)) [
            | inl d ↦
                rw (e, d)
                  (
                    (
                      λ k. (
                        ap fine ((text_eq_iff _ _).0 e),
                        ap fine ((text_eq_iff _ _).0 d),
                        (linkage_step p raise).0 k,
                      ),
                      λ k. (linkage_step p raise).1 k.2,
                    ),
                    answered (linkage_answers p),
                  )
            | inr d ↦
                rw (e, d)
                  (
                    (
                      λ k. absurd ((mismatched raise cart_hash_mismatch (inr refl)).0 k),
                      λ k. absurd (differ digest p.cart_mandate_hash d k.1),
                    ),
                    inr (inl (mismatched raise cart_hash_mismatch (inr refl)).1),
                  )
          ]
          | inr e ↦ rw e (
            (
              λ k. absurd ((mismatched raise intent_hash_mismatch (inl refl)).0 k),
              λ k. absurd (differ (intent_digest sha256 intent) p.intent_mandate_hash e k.0),
            ),
            inr (inl (mismatched raise intent_hash_mismatch (inl refl)).1),
          )
        ])

  unhashed_cart :
      (execution : ExecutionMandate) (raise : Bool) (fault : SdkError)
      → compute_mandate_hash sha256 (signed_cart_fields cart) ≡ thrown fault
      → Linked execution raise
  unfolding verify_mandate_chain verified_chain
  unhashed_cart execution raise fault h =
      let p = execution.payload in
      let fractions : HasWholeRates cart → ⊥ =
        λ w. differ_thrown _ _ (sym (compute_mandate_hash-cart sha256 cart w) ∙ h) in
      rw (intent_step p, cart_fault p fault h, compute_mandate_hash-intent sha256 intent, h)
        (elim (Bool-cases (text_eq (intent_digest sha256 intent) p.intent_mandate_hash)) [
          | inl e ↦
              rw (e, rethrown raise fault, rethrown false fault)
                ((λ k. cc, λ k. cc), inr (inr (fault, refl, refl, fractions)))
          | inr e ↦ rw e (
            (
              λ k. absurd ((mismatched raise intent_hash_mismatch (inl refl)).0 k),
              λ k. absurd (differ (intent_digest sha256 intent) p.intent_mandate_hash e k.0),
            ),
            inr (inl (mismatched raise intent_hash_mismatch (inl refl)).1),
          )
        ])

  -- A chain verifies, whichever way it reports a mismatch, exactly when the hashes in the execution
  -- mandate are those of the intent and of the cart, the settlement amount is the cart's total, that
  -- total is within the intent's budget and its limit for one transaction, and the execution mandate
  -- is no later than the intent's end. When mismatches are not raised, the answer is true or false, or
  -- it throws the error that the cart's hash throws, and then some line of the cart has a GST rate with a
  -- fraction.
  pub verify_mandate_chain_iff :
      (execution : ExecutionMandate) (raise : Bool)
      → ((verify_mandate_chain sha256 intent cart execution raise ≡ fine true) ↔ (
          (compute_mandate_hash sha256 (signed_intent_fields intent)
            ≡ fine execution.payload.intent_mandate_hash)
          × (compute_mandate_hash sha256 (signed_cart_fields cart)
              ≡ fine execution.payload.cart_mandate_hash)
          × IsWithin intent cart execution.payload))
        × Reported (verify_mandate_chain sha256 intent cart execution false)
  verify_mandate_chain_iff execution raise =
      by_hash (compute_mandate_hash sha256 (signed_cart_fields cart)) refl
    where
      by_hash :
          (m : Fallible SdkError Text)
          → compute_mandate_hash sha256 (signed_cart_fields cart) ≡ m
          → Linked execution raise
      by_hash (fine digest) h = hashed_cart execution raise digest h
      by_hash (thrown fault) h = unhashed_cart execution raise fault h
