-- ===== src/Delegation/Backed.antt =====
-- What stands behind a cart that the merchant signs.
use razoragent_mesh.Prelude.{
  ℕ, ◌+◌, ◌*◌, ◌/◌, ◌≤◌, ◌≡◌, refl, sym, ap, subst, ◌∙◌, Option, none, some, Bool, true, false, not,
  Fallible, fine, thrown, throw_if, ◌>>=◌, ◌>>◌, >>=-eq-fine, >>-eq-fine, arith,
}
use razoragent_mesh.Prelude.Text.{Text}
use razoragent_mesh.Protocol.{millis_per_second}
use razoragent_mesh.Crypto.{verify_lock_signature}
use razoragent_mesh.Quote.Price.{QuoteError}
use razoragent_mesh.Quote.Package.{SkuQuoteResponse}
use razoragent_mesh.Sdk.Keys.{Nacl, AgentKeyManager, from_seed}
use razoragent_mesh.Sdk.Mandates.{
  CartMandate, SdkError, has_no_items, empty_cart, signed_items, cart_fields, sign_payload,
  compute_mandate_hash, signed_cart_fields, create_signed_cart_mandate,
}
use razoragent_mesh.Delegation.{
  DelegationSession, Mesh, Environment, MeshError, lock_signature_invalid, unserviceable_address,
  ToolRun, keyed, signed_by_sdk, load_delegation_session, save_delegation_session,
}
use razoragent_mesh.Delegation.Payout.{mesh_merchant_did}
use razoragent_mesh.Delegation.Cart.{
  CreateCartMandateRequest, CartDraws, CartResponse, quoted, matched_expiry, hash_matches_at,
  reconcile_quote, reconcile_lock, sla_of, cart_params, cart_session, signed_cart, cart_response,
  store_cart, requote, build_cart, cart_guards, cart_for, create_cart_mandate_for_delegation,
}
use razoragent_mesh.Delegation.Scan.{matched_expiry_sound, live_expiry-parts}
use razoragent_mesh.Delegation.Issuing.{signed_by_sdk-fine}

abbrev SameFigures : CartMandate → CartMandate → Text → Type 0
SameFigures cart params did =
    (cart.merchant_did ≡ did)
    × (cart.total_paise ≡ params.total_paise)
    × (cart.taxable_subtotal_paise ≡ params.taxable_subtotal_paise)
    × (cart.inventory_lock_token ≡ params.inventory_lock_token)
    × (cart.inventory_lock_expires_at ≡ params.inventory_lock_expires_at)

abbrev unsigned_cart : CartMandate → Text → CartMandate
unsigned_cart params did = record params { items = signed_items params.items; merchant_did = did }

stamped :
    (x : Fallible SdkError Text) (params cart : CartMandate) (did : Text)
    → (x >>= λ signature.
        fine (record (unsigned_cart params did) { merchant_signature = signature }))
      ≡ fine cart
    → SameFigures cart params did
stamped (thrown e) params cart did h = absurd (cc)
stamped (fine signature) params cart did h =
    let e : record (unsigned_cart params did) { merchant_signature = signature } ≡ cart = cc in
    subst (λ c. SameFigures c params did) e (refl, refl, refl, refl, refl)

-- The signed cart is that of the parameters, but for the category, the merchant and the signature.
created_cart :
    (nacl : Nacl) (params cart : CartMandate) (signer : AgentKeyManager)
    → create_signed_cart_mandate nacl params signer ≡ fine cart
    → SameFigures cart params signer.agent_did
unfolding create_signed_cart_mandate
created_cart nacl params cart signer h =
    let (filled, rest) =
      >>-eq-fine (throw_if (has_no_items params.items) empty_cart)
        (sign_payload nacl signer (cart_fields (unsigned_cart params signer.agent_did))
          >>= λ signature.
              fine
                (record (unsigned_cart params signer.agent_did) { merchant_signature = signature }))
        h in
    stamped (sign_payload nacl signer (cart_fields (unsigned_cart params signer.agent_did))) params
      cart signer.agent_did rest

allowed : (t : Bool) (e : MeshError) → throw_if (not t) e ≡ fine tt → t ≡ true
allowed true e h = refl
allowed false e h = absurd (cc)

quoted-fine :
    (o : Fallible QuoteError SkuQuoteResponse) (q : SkuQuoteResponse)
    → quoted o ≡ fine q
    → o ≡ fine q
unfolding quoted
quoted-fine (fine a) q h = cc
quoted-fine (thrown e) q h = absurd (cc)

module _ (env : Environment) (r : CreateCartMandateRequest) (draws : CartDraws) where
  -- A quote that the mesh has made again, whose hash the request holds and which has not lapsed; a lock
  -- that the mesh has signed; a delivery that can be made; and a cart of exactly these figures.
  pub record Backed (buyer_agent_did : Text) (mesh : Mesh)
      (outcome : Fallible QuoteError SkuQuoteResponse) (cart : CartMandate) (hash : Text)
      : Type 0 where
    pub quote : SkuQuoteResponse
    pub expiry : ℕ
    pub made_again : outcome ≡ fine quote
    pub hash_matches : hash_matches_at env r draws buyer_agent_did quote expiry ≡ true
    pub not_lapsed : draws.reconciling ≤ expiry + 2
    pub lock_signed :
        verify_lock_signature env.lock_signer
          (record {
            lock_token = r.lock_token;
            fencing_token = r.fencing_token;
            sku_id = r.sku_id;
            quantity_locked = r.quantity;
            expires_at_unix_ms = r.lock_expires_at_unix_ms;
          })
          r.lock_signature
          env.merchant_private_key_hex
        ≡ true
    pub delivered : (sla_of env r draws mesh).serviceable ≡ true
    pub signer : mesh_merchant_did env ≡ fine cart.merchant_did
    pub total :
        cart.total_paise
        ≡ quote.offered_unit_price_paise * r.quantity
          + quote.tax_breakdown.total_tax_paise
          + (sla_of env r draws mesh).shipping_cost_paise
    pub subtotal : cart.taxable_subtotal_paise ≡ quote.offered_unit_price_paise * r.quantity
    pub lock_token : cart.inventory_lock_token ≡ r.lock_token
    pub lock_seconds :
        cart.inventory_lock_expires_at ≡ r.lock_expires_at_unix_ms / millis_per_second
    pub hashed : compute_mandate_hash env.sha256 (signed_cart_fields cart) ≡ fine hash

  packing : CartMandate → Text → Fallible MeshError (CartMandate × Text)
  packing cart hash = fine (cart, hash)

  cart_all :
      (m : Fallible MeshError SkuQuoteResponse)
      (f : SkuQuoteResponse → Fallible MeshError (Unit {0})) (d g : Fallible MeshError (Unit {0}))
      (k : Fallible MeshError AgentKeyManager)
      (make : SkuQuoteResponse → AgentKeyManager → Fallible MeshError CartMandate)
      (hash_of : CartMandate → Fallible MeshError Text) (cart : CartMandate) (hash : Text)
      → (m >>= λ q. f q >> (d >> (g >> (k >>= λ u. make q u >>= λ c. hash_of c >>= packing c))))
        ≡ fine (cart, hash)
      → (q : SkuQuoteResponse) × (u : AgentKeyManager) × (m ≡ fine q)
        × (f q ≡ fine tt)
        × (d ≡ fine tt)
        × (g ≡ fine tt)
        × (k ≡ fine u)
        × (make q u ≡ fine cart)
        × (hash_of cart ≡ fine hash)
  unfolding packing
  cart_all (thrown e) f d g k make hash_of cart hash h = absurd (cc)
  cart_all (fine q) f d g k make hash_of cart hash h =
      let (first, h1) =
        >>-eq-fine (f q) (d >> (g >> (k >>= λ u. make q u >>= λ c. hash_of c >>= packing c))) h in
      let (second, h2) =
        >>-eq-fine d (g >> (k >>= λ u. make q u >>= λ c. hash_of c >>= packing c)) h1 in
      let (third, h3) = >>-eq-fine g (k >>= λ u. make q u >>= λ c. hash_of c >>= packing c) h2 in
      let (u, key, h4) = >>=-eq-fine k (λ u. make q u >>= λ c. hash_of c >>= packing c) h3 in
      let (c, made, h5) = >>=-eq-fine (make q u) (λ c. hash_of c >>= packing c) h4 in
      let (t, hashed, h6) = >>=-eq-fine (hash_of c) (packing c) h5 in
      let e : c ≡ cart = cc in
      let z : t ≡ hash = cc in
      (
        q,
        u,
        refl,
        first,
        second,
        third,
        key,
        made ∙ ap fine e,
        subst (λ x. hash_of x ≡ fine hash) e (hashed ∙ ap fine z),
      )

  seeded :
      (signer : AgentKeyManager)
      → keyed (from_seed env.nacl env.merchant_private_key_hex) ≡ fine signer
      → mesh_merchant_did env ≡ fine signer.agent_did
  unfolding mesh_merchant_did
  seeded signer h = rw h refl

  signed_cart-Backed :
      (buyer_agent_did : Text) (mesh : Mesh) (outcome : Fallible QuoteError SkuQuoteResponse)
      (cart : CartMandate) (hash : Text)
      → signed_cart env r draws buyer_agent_did mesh outcome ≡ fine (cart, hash)
      → Backed buyer_agent_did mesh outcome cart hash
  unfolding signed_cart reconcile_quote reconcile_lock packing cart_params
  signed_cart-Backed buyer_agent_did mesh outcome cart hash h =
      let sla = sla_of env r draws mesh in
      let (q, u, made, reconciled, locked, delivered, key, signed, hashed) =
        cart_all (quoted outcome) (reconcile_quote env r draws buyer_agent_did)
          (reconcile_lock env r draws)
          (throw_if (not sla.serviceable) (unserviceable_address sla.unserviceable_reason))
          (keyed (from_seed env.nacl env.merchant_private_key_hex))
          (λ quote signer.
            signed_by_sdk
              (create_signed_cart_mandate env.nacl (cart_params env r draws quote sla) signer))
          (λ c. signed_by_sdk (compute_mandate_hash env.sha256 (signed_cart_fields c))) cart hash
          h in
      let (expiry, matched, live) =
        live_expiry-parts
          (matched_expiry (hash_matches_at env r draws buyer_agent_did q) r.quote_expiry_timestamp
            draws.reconciling)
          draws.reconciling reconciled in
      let (did, total, subtotal, token, seconds) =
        created_cart env.nacl (cart_params env r draws q sla) cart u
          (signed_by_sdk-fine env _ cart signed) in
      record {
        quote = q;
        expiry = expiry;
        made_again = quoted-fine outcome q made;
        hash_matches =
            matched_expiry_sound (hash_matches_at env r draws buyer_agent_did q)
              r.quote_expiry_timestamp draws.reconciling expiry matched;
        not_lapsed = live;
        lock_signed = allowed _ lock_signature_invalid locked;
        delivered =
            allowed sla.serviceable (unserviceable_address sla.unserviceable_reason) delivered;
        signer = seeded u key ∙ ap fine (sym did);
        total = total;
        subtotal = subtotal;
        lock_token = token;
        lock_seconds = seconds;
        hashed = signed_by_sdk-fine env _ hash hashed;
      }

  -- A cart that the tool returns is the one of the session that it loaded, which was not settled.
  abbrev pub Delivered :
      Option DelegationSession → Mesh → ToolRun CartResponse → CartResponse → Type 0
  Delivered found loaded run resp =
      (s : DelegationSession) × (found ≡ some s)
      × (s.settled ≡ false)
      × Backed s.buyer_agent_did loaded (requote env r draws s loaded).outcome resp.cart_mandate
          resp.cart_mandate_hash
      × (run.mesh
          ≡ save_delegation_session
              (cart_session env r draws s resp.cart_mandate resp.cart_mandate_hash)
              (record loaded { quotes = (requote env r draws s loaded).quotes }))

  stored :
      (s : DelegationSession) (o : Fallible MeshError (CartMandate × Text)) (mesh : Mesh)
      (resp : CartResponse)
      → (store_cart env r draws s o mesh).outcome ≡ fine resp
      → (o ≡ fine (resp.cart_mandate, resp.cart_mandate_hash))
        × ((store_cart env r draws s o mesh).mesh
            ≡ save_delegation_session
                (cart_session env r draws s resp.cart_mandate resp.cart_mandate_hash)
                mesh)
  unfolding store_cart cart_response
  stored s (thrown e) mesh resp h = absurd (cc)
  stored s (fine (cart, hash)) mesh resp h =
      let e : cart_response env r draws cart hash ≡ resp = cc in
      subst
        (λ x.
          (◌≡◌ {A = Fallible MeshError (CartMandate × Text)} (fine (cart, hash))
            (fine (x.cart_mandate, x.cart_mandate_hash)))
          × (save_delegation_session (cart_session env r draws s cart hash) mesh
              ≡ save_delegation_session
                  (cart_session env r draws s x.cart_mandate x.cart_mandate_hash) mesh))
        e (refl, refl)

  built_with :
      (s : DelegationSession) (g : Fallible MeshError (Unit {0})) (mesh : Mesh)
      (resp : CartResponse)
      → cart_guards env r draws s ≡ g
      → (build_cart env r draws s g mesh).outcome ≡ fine resp
      → Delivered (some s) mesh (build_cart env r draws s g mesh) resp
  unfolding build_cart cart_guards
  built_with s (thrown e) mesh resp guard h = absurd (cc)
  built_with s (fine u) mesh resp guard h =
      let run = requote env r draws s mesh in
      let (signed, after) =
        stored s (signed_cart env r draws s.buyer_agent_did mesh run.outcome)
          (record mesh { quotes = run.quotes }) resp h in
      (
        s,
        refl,
        ground arith,
        signed_cart-Backed s.buyer_agent_did mesh run.outcome resp.cart_mandate
            resp.cart_mandate_hash signed,
        after,
      )

  cart_for-Delivered :
      (found : Option DelegationSession) (mesh : Mesh) (resp : CartResponse)
      → (cart_for env r draws found mesh).outcome ≡ fine resp
      → Delivered found mesh (cart_for env r draws found mesh) resp
  unfolding cart_for
  cart_for-Delivered none mesh resp h = absurd (cc)
  cart_for-Delivered (some s) mesh resp h =
      built_with s (cart_guards env r draws s) mesh resp refl h

  -- When `create_cart_mandate` returns, the session that it loaded was not settled, and behind the signed
  -- cart stand: a quote that the mesh made again, whose hash at some expiry is the request's and which
  -- lapsed at most two seconds ago; the mesh's own signature on the lock; a delivery that can be made;
  -- the merchant's DID as that of the mesh's key; the total as the offered price for the quantity, the
  -- quote's tax and the shipping; the lock's expiry in seconds; and the hash as the cart's. The state
  -- has the quote recorded and the session stored with the cart, not settled and without a bundle.
  pub create_cart_mandate-backed :
      (mesh : Mesh) (resp : CartResponse)
      → (create_cart_mandate_for_delegation env r draws mesh).outcome ≡ fine resp
      → let loaded = load_delegation_session r.delegation_id draws.loading mesh in
        Delivered loaded.0 loaded.1 (create_cart_mandate_for_delegation env r draws mesh) resp
  unfolding create_cart_mandate_for_delegation
  create_cart_mandate-backed mesh resp h =
      let loaded = load_delegation_session r.delegation_id draws.loading mesh in
      cart_for-Delivered loaded.0 loaded.1 resp h
