-- ===== src/Delegation/Settlement/Prepared.antt =====
-- What has passed when a settlement is about to be posted.
use razoragent_mesh.Prelude.{
  ◌≡◌, sym, ◌∙◌, ap, subst, arith, >>-eq-fine, Option, none, some, true, not, Fallible, fine,
  thrown, throw_if, ◌>>=◌, ◌>>◌, >>=-eq-fine,
}
use razoragent_mesh.Prelude.Text.{Text, text_eq, text_eq_iff}
use razoragent_mesh.Session.{SessionRegistry}
use razoragent_mesh.Sdk.Mandates.{CartMandate, UnsignedExecutionPayload, ExecutionMandate}
use razoragent_mesh.Delegation.{DelegationSession, Environment, MeshError, execution_id_mismatch}
use razoragent_mesh.Delegation.Payout.{
  MerchantPayoutAccount, resolve_merchant_payout_account, assert_requested_merchant_account_matches,
}
use razoragent_mesh.Delegation.Settlement.{
  SettlementBody, cart_key, named_session, reject_duplicate_purchase, reject_over_session_budget,
}
use razoragent_mesh.Delegation.Settlement.Run.{
  Bundle, SettlementCall, bundle_of, requested_bundle, settlement_guards, execution_mandate_of,
  settlement_body, prepared,
}

module _ (env : Environment) (call : SettlementCall) where
  pub record Requested (session : DelegationSession) (b : Bundle) : Type 0 where
    pub same_session : b.session ≡ session
    pub has_payload : session.unsigned_execution_payload ≡ some b.payload
    pub has_cart : session.cart_mandate ≡ some b.cart
    pub same_id : b.payload.execution_id ≡ call.request.execution_id

  pub record Passed (session : DelegationSession) (purchases : SessionRegistry) (b : Bundle)
      (body : SettlementBody) : Type 0 where
    pub requested : Requested session b
    pub payout : MerchantPayoutAccount
    pub mandate : ExecutionMandate
    pub resolved : resolve_merchant_payout_account env b.cart.merchant_did ≡ fine payout
    pub agreed :
        assert_requested_merchant_account_matches call.request.merchant_account payout ≡ fine tt
    pub in_budget :
        reject_over_session_budget b.cart.total_paise (named_session call.mcp_session_id) purchases
        ≡ fine tt
    pub signed : execution_mandate_of env call b b.session.signed_execution_mandate ≡ fine mandate
    pub posted : body ≡ settlement_body env call b mandate payout

  bundle_of-parts :
      (session : DelegationSession) (p : Option UnsignedExecutionPayload) (c : Option CartMandate)
      (b : Bundle)
      → bundle_of session p c ≡ fine b
      → (b.session ≡ session) × (p ≡ some b.payload) × (c ≡ some b.cart)
  unfolding bundle_of
  bundle_of-parts session (some p) (some c) b h = (cc, cc, cc)
  bundle_of-parts session (some p) none b h = absurd (cc)
  bundle_of-parts session none c b h = absurd (cc)

  id_checked :
      (m : Fallible MeshError Bundle) (id : Text) (b : Bundle)
      → (m >>= λ c.
          throw_if (not (text_eq c.payload.execution_id id)) execution_id_mismatch >> fine c)
        ≡ fine b
      → (m ≡ fine b) × (b.payload.execution_id ≡ id)
  id_checked (thrown e) id b h = absurd (cc)
  id_checked (fine c) id b h =
      let (guard, same) =
        >>-eq-fine (throw_if (not (text_eq c.payload.execution_id id)) execution_id_mismatch)
          (fine c) h in
      let e : c ≡ b = cc in
      let passed : text_eq c.payload.execution_id id ≡ true = ground arith in
      (
        same,
        subst (λ x. x.payload.execution_id ≡ id) e
            ((text_eq_iff c.payload.execution_id id).0 passed),
      )

  requested_bundle-parts :
      (session : DelegationSession) (b : Bundle)
      → requested_bundle env call session ≡ fine b
      → Requested session b
  unfolding requested_bundle
  requested_bundle-parts session b h =
      let (bundled, same_id) =
        id_checked (bundle_of session session.unsigned_execution_payload session.cart_mandate)
          call.request.execution_id b h in
      let (s, p, cart) =
        bundle_of-parts session session.unsigned_execution_payload session.cart_mandate b bundled in
      record { same_session = s; has_payload = p; has_cart = cart; same_id = same_id }

  guards_all :
      (m : Fallible MeshError MerchantPayoutAccount)
      (f : MerchantPayoutAccount → Fallible MeshError (Unit {0}))
      (d g : Fallible MeshError (Unit {0})) (p : MerchantPayoutAccount)
      → (m >>= λ x. f x >> (d >> (g >> fine x))) ≡ fine p
      → (m ≡ fine p) × (f p ≡ fine tt) × (g ≡ fine tt)
  guards_all (thrown e) f d g p h = absurd (cc)
  guards_all (fine x) f d g p h =
      let (first, rest) = >>-eq-fine (f x) (d >> (g >> fine x)) h in
      let (second, rest2) = >>-eq-fine d (g >> fine x) rest in
      let (third, same) = >>-eq-fine g (fine x) rest2 in
      let e : x ≡ p = cc in (same, subst (λ y. f y ≡ fine tt) e first, third)

  guards-parts :
      (b : Bundle) (purchases : SessionRegistry) (payout : MerchantPayoutAccount)
      → settlement_guards env call b purchases ≡ fine payout
      → (resolve_merchant_payout_account env b.cart.merchant_did ≡ fine payout)
        × (assert_requested_merchant_account_matches call.request.merchant_account payout ≡ fine tt)
        × (reject_over_session_budget b.cart.total_paise
              (named_session call.mcp_session_id)
              purchases
            ≡ fine tt)
  unfolding settlement_guards
  guards-parts b purchases payout h =
      guards_all (resolve_merchant_payout_account env b.cart.merchant_did)
        (assert_requested_merchant_account_matches call.request.merchant_account)
        (reject_duplicate_purchase (cart_key b.cart) call.request.allow_repeat_purchase
          (named_session call.mcp_session_id) purchases)
        (reject_over_session_budget b.cart.total_paise (named_session call.mcp_session_id)
          purchases)
        payout h

  sending :
      Bundle
      → MerchantPayoutAccount
      → ExecutionMandate
      → Fallible MeshError (Bundle × SettlementBody)
  sending c payout mandate = fine (c, settlement_body env call c mandate payout)

  prepared_all :
      (m : Fallible MeshError Bundle) (f : Bundle → Fallible MeshError MerchantPayoutAccount)
      (g : Bundle → Fallible MeshError ExecutionMandate) (b : Bundle) (body : SettlementBody)
      → (m >>= λ c. f c >>= λ payout. g c >>= sending c payout) ≡ fine (b, body)
      → (payout : MerchantPayoutAccount) × (mandate : ExecutionMandate) × (m ≡ fine b)
        × (f b ≡ fine payout)
        × (g b ≡ fine mandate)
        × (body ≡ settlement_body env call b mandate payout)
  unfolding sending
  prepared_all (thrown e) f g b body h = absurd (cc)
  prepared_all (fine c) f g b body h =
      let (payout, first, rest) = >>=-eq-fine (f c) (λ payout. g c >>= sending c payout) h in
      let (mandate, second, same) = >>=-eq-fine (g c) (sending c payout) rest in
      let e : c ≡ b = cc in
      let packed : body ≡ settlement_body env call c mandate payout = cc in
      (
        payout,
        mandate,
        ap fine e,
        subst (λ y. f y ≡ fine payout) e first,
        subst (λ y. g y ≡ fine mandate) e second,
        subst (λ y. body ≡ settlement_body env call y mandate payout) e packed,
      )

  pub prepared-Passed :
      (session : DelegationSession) (purchases : SessionRegistry) (b : Bundle)
      (body : SettlementBody)
      → prepared env call session purchases ≡ fine (b, body)
      → Passed session purchases b body
  unfolding prepared sending
  prepared-Passed session purchases b body h =
      let (payout, mandate, requested, guarded, signed, posted) =
        prepared_all (requested_bundle env call session)
          (λ c. settlement_guards env call c purchases)
          (λ c. execution_mandate_of env call c c.session.signed_execution_mandate) b body h in
      let (resolved, agreed, in_budget) = guards-parts b purchases payout guarded in
      record {
        requested = requested_bundle-parts session b requested;
        payout = payout;
        mandate = mandate;
        resolved = resolved;
        agreed = agreed;
        in_budget = in_budget;
        signed = signed;
        posted = posted;
      }

  pub posted_mandate :
      {session : DelegationSession} {purchases : SessionRegistry} (b : Bundle)
      (body : SettlementBody)
      → Passed session purchases b body
      → execution_mandate_of env call b b.session.signed_execution_mandate
        ≡ fine body.execution_mandate
  unfolding settlement_body
  posted_mandate b body p =
      Passed.signed p
      ∙ ap fine (ap (λ (x : SettlementBody). x.execution_mandate) (sym (Passed.posted p)))
