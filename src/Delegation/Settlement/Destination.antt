-- ===== src/Delegation/Settlement/Destination.antt =====
-- Where the money of a posted bundle goes.
use razoragent_mesh.Prelude.{
  ◌≡◌, ◌≢◌, ◌⊎◌, inl, inr, refl, ap, subst, sym, Option, none, some, true, Bool-cases, fine, arith,
}
use razoragent_mesh.Prelude.Text.{Text, text_eq, text_eq_iff}
use razoragent_mesh.Session.{SessionRegistry}
use razoragent_mesh.Delegation.{DelegationSession, Environment, default_merchant_account}
use razoragent_mesh.Delegation.Payout.{
  MerchantPayoutAccount, is_razorpay_account_id, usable_account, mesh_merchant_did,
  read_registered_profile_account, registered_payout, resolve_merchant_payout_account,
  assert_requested_merchant_account_matches,
}
use razoragent_mesh.Delegation.Settlement.{SettlementBody}
use razoragent_mesh.Delegation.Settlement.Run.{Bundle, SettlementCall, settlement_body, prepared}
use razoragent_mesh.Delegation.Settlement.Prepared.{Requested, Passed, prepared-Passed}

-- The account for a merchant: the mesh's own for its own DID, else a Route account in the profile.
abbrev pub IsPayoutOf : Environment → Text → Text → Text → Type 0
IsPayoutOf env own did account =
    ((did ≡ own) × (account ≡ default_merchant_account))
    ⊎ ((did ≢ own)
        × (env.profile_account did ≡ some account)
        × (is_razorpay_account_id account ≡ true))

module _ (env : Environment) where
  usable-parts :
      (o : Option Text) (account : Text)
      → usable_account o ≡ some account
      → (o ≡ some account) × (is_razorpay_account_id account ≡ true)
  unfolding usable_account
  usable-parts none account h = absurd (cc)
  usable-parts (some found) account h = ground arith

  registered-parts :
      (did : Text) (o : Option Text) (payout : MerchantPayoutAccount)
      → registered_payout env did o ≡ fine payout
      → o ≡ some payout.razorpay_account_id
  unfolding registered_payout
  registered-parts did none payout h = absurd (cc)
  registered-parts did (some account) payout h = cc

  resolve-IsPayoutOf :
      (did own : Text) (payout : MerchantPayoutAccount)
      → mesh_merchant_did env ≡ fine own
      → resolve_merchant_payout_account env did ≡ fine payout
      → IsPayoutOf env own did payout.razorpay_account_id
  unfolding resolve_merchant_payout_account read_registered_profile_account
  resolve-IsPayoutOf did own payout known h = elim (Bool-cases (text_eq did own)) [
    | inl same ↦ let e = rw (known, same) at h in inl ((text_eq_iff did own).0 same, cc)
    | inr other ↦
        let e = rw (known, other) at h in
        let (found, account) =
          usable-parts (env.profile_account did) payout.razorpay_account_id
            (registered-parts did (usable_account (env.profile_account did)) payout e) in
        inr ((λ same. let t = (text_eq_iff did own).1 same in cc), found, account)
  ]

  agreed-parts :
      (requested : Option Text) (payout : MerchantPayoutAccount)
      → assert_requested_merchant_account_matches requested payout ≡ fine tt
      → (requested ≡ none) ⊎ (requested ≡ some payout.razorpay_account_id)
  unfolding assert_requested_merchant_account_matches
  agreed-parts none payout h = inl refl
  agreed-parts (some account) payout h =
      inr (ap some (ground (arith, text_eq_iff account payout.razorpay_account_id)))

  -- A posted body carries the session's cart, and pays the account of the merchant who signed that
  -- cart: the mesh's own account for the mesh's own DID, else the Route account of the profile that is
  -- registered for the DID. An account in the request is either absent or that same account.
  pub prepared-pays_the_signer :
      (call : SettlementCall) (session : DelegationSession) (purchases : SessionRegistry)
      (b : Bundle) (body : SettlementBody) (own : Text)
      → mesh_merchant_did env ≡ fine own
      → prepared env call session purchases ≡ fine (b, body)
      → (session.cart_mandate ≡ some body.cart_mandate)
        × IsPayoutOf env own body.cart_mandate.merchant_did body.merchant_account
        × ((call.request.merchant_account ≡ none)
            ⊎ (call.request.merchant_account ≡ some body.merchant_account))
  unfolding settlement_body
  prepared-pays_the_signer call session purchases b body own known h =
      let p = prepared-Passed env call session purchases b body h in
      let payout = Passed.payout p in
      subst
        (λ x.
          (session.cart_mandate ≡ some x.cart_mandate)
          × IsPayoutOf env own x.cart_mandate.merchant_did x.merchant_account
          × ((call.request.merchant_account ≡ none)
              ⊎ (call.request.merchant_account ≡ some x.merchant_account)))
        (sym (Passed.posted p))
        (
          Requested.has_cart (Passed.requested p),
          resolve-IsPayoutOf b.cart.merchant_did own payout known (Passed.resolved p),
          agreed-parts call.request.merchant_account payout (Passed.agreed p),
        )
