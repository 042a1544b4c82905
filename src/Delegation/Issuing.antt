-- ===== src/Delegation/Issuing.antt =====
-- What an issued payload is, and that issuing keeps the stored sessions well formed.
use razoragent_mesh.Prelude.{
  ◌≡◌, refl, sym, ap, subst, ◌∙◌, Option, none, some, false, Fallible, fine, thrown, throw_if,
  ◌>>=◌, >>=-eq-fine, >>-eq-fine, arith,
}
use razoragent_mesh.Prelude.Text.{Text}
use razoragent_mesh.Sdk.Mandates.{
  CartMandate, UnsignedExecutionPayload, ExecutionDraws, SdkError, drifted, execution_fields,
}
use razoragent_mesh.Sdk.Json.{object, JsonDrift, canonicalize_json_string}
use razoragent_mesh.Sdk.Mandates.Hash.{Built, build_unsigned_execution_payload-Built}
use razoragent_mesh.Delegation.{
  DelegationSession, Mesh, Environment, MeshError, delegation_already_settled, signed_by_sdk,
}
use razoragent_mesh.Delegation.Execution.{
  execution_payload, issued_payload_of, issued_payload, issued_session, store_issued, execution_for,
}
use razoragent_mesh.Delegation.Shape.{SettledShape, IsSound, AreSound, save-AreSound}

issued_pair : UnsignedExecutionPayload → Text → Fallible MeshError (UnsignedExecutionPayload × Text)
issued_pair q t = fine (q, t)

module _ (env : Environment) where
  pub signed_by_sdk-fine :
      {A : Type 0} (x : Fallible SdkError A) (a : A) → signed_by_sdk x ≡ fine a → x ≡ fine a
  unfolding signed_by_sdk
  signed_by_sdk-fine (fine b) a h = cc
  signed_by_sdk-fine (thrown e) a h = absurd (cc)

  drifted-fine : {A : Type 0} (x : Fallible JsonDrift A) (a : A) → drifted x ≡ fine a → x ≡ fine a
  unfolding drifted
  drifted-fine (fine b) a h = cc
  drifted-fine (thrown e) a h = absurd (cc)

  -- What an issued payload is: built for the session's cart and its total, with its canonical text.
  pub record Issued (draws : ExecutionDraws) (s : DelegationSession) (p : UnsignedExecutionPayload)
      (text : Text) : Type 0 where
    pub cart : CartMandate
    pub unsettled : s.settled ≡ false
    pub has_cart : s.cart_mandate ≡ some cart
    pub built :
        Built env.sha256 s.intent_mandate cart cart.total_paise
          s.intent_mandate.upi_circle_delegation_token draws s.buyer_agent_did p
    pub canonical : canonicalize_json_string (object (execution_fields p)) ≡ fine text

  issued_all :
      (m : Fallible MeshError UnsignedExecutionPayload)
      (f : UnsignedExecutionPayload → Fallible MeshError Text) (p : UnsignedExecutionPayload)
      (text : Text)
      → (m >>= λ q. f q >>= issued_pair q) ≡ fine (p, text)
      → (m ≡ fine p) × (f p ≡ fine text)
  unfolding issued_pair
  issued_all (thrown e) f p text h = absurd (cc)
  issued_all (fine q) f p text h =
      let (t, made, same) = >>=-eq-fine (f q) (issued_pair q) h in
      let e : q ≡ p = cc in
      let d : t ≡ text = cc in (ap fine e, subst (λ x. f x ≡ fine text) e (made ∙ ap fine d))

  issued_payload_of-Issued :
      (draws : ExecutionDraws) (s : DelegationSession) (o : Option CartMandate)
      (p : UnsignedExecutionPayload) (text : Text)
      → s.settled ≡ false
      → s.cart_mandate ≡ o
      → issued_payload_of env draws s o ≡ fine (p, text)
      → Issued draws s p text
  unfolding issued_payload_of issued_pair execution_payload
  issued_payload_of-Issued draws s none p text live found h = absurd (cc)
  issued_payload_of-Issued draws s (some cart) p text live found h =
      let (built, canonical) =
        issued_all (execution_payload env draws s cart)
          (λ q. signed_by_sdk (drifted (canonicalize_json_string (object (execution_fields q))))) p
          text h in
      record {
        cart = cart;
        unsettled = live;
        has_cart = found;
        built =
            build_unsigned_execution_payload-Built env.sha256 s.intent_mandate cart cart.total_paise
              s.intent_mandate.upi_circle_delegation_token draws s.buyer_agent_did p
              (signed_by_sdk-fine _ p built);
        canonical = drifted-fine _ text (signed_by_sdk-fine _ text canonical);
      }

  pub issued_payload-Issued :
      (draws : ExecutionDraws) (s : DelegationSession) (p : UnsignedExecutionPayload) (text : Text)
      → issued_payload env draws s ≡ fine (p, text)
      → Issued draws s p text
  unfolding issued_payload
  issued_payload-Issued draws s p text h =
      let (guard, rest) =
        >>-eq-fine (throw_if s.settled delegation_already_settled)
          (issued_payload_of env draws s s.cart_mandate) h in
      issued_payload_of-Issued draws s s.cart_mandate p text (ground arith) refl rest

  issued-IsSound :
      (draws : ExecutionDraws) (id : Text) (s : DelegationSession) (p : UnsignedExecutionPayload)
      (text : Text)
      → IsSound env id s
      → issued_payload env draws s ≡ fine (p, text)
      → IsSound env s.delegation_id (issued_session env draws s p text)
  unfolding issued_session
  issued-IsSound draws id s p text h e =
      let i = issued_payload-Issued draws s p text e in
      let b = Issued.built i in
      record {
        own_id = refl;
        settled_shape =
            subst (λ t. SettledShape t none s.buyer_secret_key_hex) (sym (Issued.unsettled i)) tt;
        custody_shape = IsSound.custody_shape h;
        payload_shape = (
          Built.same_did b,
          Built.same_token b,
          Built.intent_hash b,
          (text, refl, Issued.canonical i),
        );
        bundle_shape = tt;
      }

  store_issued-AreSound :
      (draws : ExecutionDraws) (id : Text) (s : DelegationSession)
      (o : Fallible MeshError (UnsignedExecutionPayload × Text)) (mesh : Mesh)
      → issued_payload env draws s ≡ o
      → IsSound env id s
      → AreSound env mesh.sessions
      → AreSound env ((store_issued env draws s o mesh).mesh).sessions
  unfolding store_issued issued_session
  store_issued-AreSound draws id s (thrown e) mesh same p h = h
  store_issued-AreSound draws id s (fine (payload, text)) mesh same p h =
      save-AreSound env (issued_session env draws s payload text) mesh h
        (issued-IsSound draws id s payload text p same)

  pub execution_for-AreSound :
      (draws : ExecutionDraws) (id : Text) (o : Option DelegationSession) (mesh : Mesh)
      → ((s : DelegationSession) → o ≡ some s → IsSound env id s)
      → AreSound env mesh.sessions
      → AreSound env ((execution_for env draws o mesh).mesh).sessions
  unfolding execution_for
  execution_for-AreSound draws id none mesh p h = h
  execution_for-AreSound draws id (some s) mesh p h =
      store_issued-AreSound draws id s (issued_payload env draws s) mesh refl (p s refl) h
