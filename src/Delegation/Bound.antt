-- ===== src/Delegation/Bound.antt =====
-- Each of the mandate tools keeps the stored sessions well formed.
use razoragent_mesh.Prelude.{
  ◌≡◌, refl, subst, Option, none, some, Fallible, fine, thrown, ◌>>=◌, >>=-eq-fine,
}
use razoragent_mesh.Prelude.Text.{Text}
use razoragent_mesh.Sdk.Keys.{manager_of, AgentKeyManager}
use razoragent_mesh.Sdk.Mandates.{
  IntentMandate, CartMandate, UnsignedExecutionPayload, create_signed_intent_mandate,
}
use razoragent_mesh.Delegation.{
  KeyCustodyMode, agent_held, mesh_demo_custodial, DelegationSession, Mesh, Environment, MeshError,
  keyed, signed_by_sdk,
}
use razoragent_mesh.Delegation.Establish.{
  EstablishDelegationRequest, EstablishDraws, BuyerIdentity, verify_possession_proof,
  resolve_buyer_identity_by, intent_params, paired_session, pair_agent, store_paired,
}
use razoragent_mesh.Delegation.Cart.{
  CreateCartMandateRequest, CartDraws, cart_session, store_cart, build_cart, requote, cart_guards,
  signed_cart, cart_for,
}
use razoragent_mesh.Delegation.Shape.{CustodyShape, PayloadShape, IsSound, AreSound, save-AreSound}

module _ (env : Environment) where
  identity-CustodyShape :
      (r : EstablishDelegationRequest) (draws : EstablishDraws) (mode : KeyCustodyMode)
      (buyer : BuyerIdentity)
      → resolve_buyer_identity_by env r draws mode ≡ fine buyer
      → CustodyShape mode buyer.buyer_secret_key_hex
  unfolding resolve_buyer_identity_by
  identity-CustodyShape r draws agent_held buyer h =
      let (did, proved, same) =
        >>=-eq-fine (verify_possession_proof env r draws)
          (λ did. fine (record { buyer_agent_did = did; buyer_secret_key_hex = none })) h in
      cc
  identity-CustodyShape r draws mesh_demo_custodial buyer h = tt

  pair_all :
      (r : EstablishDelegationRequest) (draws : EstablishDraws)
      (m : Fallible MeshError BuyerIdentity) (n : Fallible MeshError AgentKeyManager)
      (g : BuyerIdentity → AgentKeyManager → Fallible MeshError IntentMandate)
      (s : DelegationSession)
      → (m >>= λ b. n >>= λ u. g b u >>= λ i. fine (paired_session env r draws b i)) ≡ fine s
      → (b : BuyerIdentity) × (i : IntentMandate) × (m ≡ fine b)
        × (paired_session env r draws b i ≡ s)
  pair_all r draws (thrown e) n g s h = absurd (cc)
  pair_all r draws (fine b) (thrown e) g s h = absurd (cc)
  pair_all r draws (fine b) (fine u) g s h =
      let (i, made, same) = >>=-eq-fine (g b u) (λ i. fine (paired_session env r draws b i)) h in
      (b, i, refl, cc)

  paired-IsSound :
      (r : EstablishDelegationRequest) (draws : EstablishDraws) (s : DelegationSession)
      → pair_agent env r draws ≡ fine s
      → IsSound env s.delegation_id s
  unfolding pair_agent paired_session
  paired-IsSound r draws s h =
      let (b, i, known, same) =
        pair_all r draws (resolve_buyer_identity_by env r draws r.key_custody)
          (keyed (manager_of draws.user_pair))
          (λ b u.
            signed_by_sdk (create_signed_intent_mandate env.nacl (intent_params env r draws b) u))
          s h in
      subst (λ x. IsSound env x.delegation_id x) same
        (record {
          own_id = refl;
          settled_shape = tt;
          custody_shape = identity-CustodyShape r draws r.key_custody b known;
          payload_shape = refl;
          bundle_shape = tt;
        })

  pub store_paired-AreSound :
      (r : EstablishDelegationRequest) (draws : EstablishDraws)
      (o : Fallible MeshError DelegationSession) (mesh : Mesh)
      → pair_agent env r draws ≡ o
      → AreSound env mesh.sessions
      → AreSound env ((store_paired env r draws o mesh).mesh).sessions
  unfolding store_paired
  store_paired-AreSound r draws (thrown e) mesh e' h = h
  store_paired-AreSound r draws (fine s) mesh e' h =
      save-AreSound env s mesh h (paired-IsSound r draws s e')

  cart-IsSound :
      (r : CreateCartMandateRequest) (draws : CartDraws) (id : Text) (s : DelegationSession)
      (cart : CartMandate) (hash : Text)
      → IsSound env id s
      → IsSound env s.delegation_id (cart_session env r draws s cart hash)
  unfolding cart_session
  cart-IsSound r draws id s cart hash h = record {
    own_id = refl;
    settled_shape = tt;
    custody_shape = IsSound.custody_shape h;
    payload_shape = go s.unsigned_execution_payload (IsSound.payload_shape h);
    bundle_shape = tt;
  }
    where
      go :
          (p : Option UnsignedExecutionPayload)
          → PayloadShape env s p
          → PayloadShape env (cart_session env r draws s cart hash) p
      go none e = e
      go (some p) e = e

  store_cart-AreSound :
      (r : CreateCartMandateRequest) (draws : CartDraws) (id : Text) (s : DelegationSession)
      (o : Fallible MeshError (CartMandate × Text)) (mesh : Mesh)
      → IsSound env id s
      → AreSound env mesh.sessions
      → AreSound env ((store_cart env r draws s o mesh).mesh).sessions
  unfolding store_cart cart_session
  store_cart-AreSound r draws id s (thrown e) mesh p h = h
  store_cart-AreSound r draws id s (fine (cart, hash)) mesh p h =
      save-AreSound env (cart_session env r draws s cart hash) mesh h
        (cart-IsSound r draws id s cart hash p)

  build_cart-AreSound :
      (r : CreateCartMandateRequest) (draws : CartDraws) (id : Text) (s : DelegationSession)
      (g : Fallible MeshError (Unit {0})) (mesh : Mesh)
      → IsSound env id s
      → AreSound env mesh.sessions
      → AreSound env ((build_cart env r draws s g mesh).mesh).sessions
  unfolding build_cart
  build_cart-AreSound r draws id s (thrown e) mesh p h = h
  build_cart-AreSound r draws id s (fine u) mesh p h =
      store_cart-AreSound r draws id s
        (signed_cart env r draws s.buyer_agent_did mesh (requote env r draws s mesh).outcome)
        (record mesh { quotes = (requote env r draws s mesh).quotes }) p h

  pub cart_for-AreSound :
      (r : CreateCartMandateRequest) (draws : CartDraws) (id : Text) (o : Option DelegationSession)
      (mesh : Mesh)
      → ((s : DelegationSession) → o ≡ some s → IsSound env id s)
      → AreSound env mesh.sessions
      → AreSound env ((cart_for env r draws o mesh).mesh).sessions
  unfolding cart_for
  cart_for-AreSound r draws id none mesh p h = h
  cart_for-AreSound r draws id (some s) mesh p h =
      build_cart-AreSound r draws id s (cart_guards env r draws s) mesh (p s refl) h
