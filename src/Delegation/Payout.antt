-- ===== src/Delegation/Payout.antt =====
-- packages/mcpServer/src/merchant/merchantPayoutRegistry.ts: where the merchant of a cart is paid. The
-- memo of the mesh's own DID is left out, since the derivation gives one answer.
use razoragent_mesh.Prelude.{
  ℕ, [], ◌∷◌, Option, none, some, Bool, true, false, not, ◌&&◌, ◌||◌, leb, ◌==◌, if◌then◌else◌,
  Fallible, fine, thrown, throw_if, ◌>>=◌,
}
use razoragent_mesh.Prelude.Text.{Text, codes, text_eq}
use razoragent_mesh.Sdk.Pow.{starts_with}
use razoragent_mesh.Sdk.Keys.{drop, from_seed}
use razoragent_mesh.Delegation.{
  Environment, MeshError, merchant_payout_unregistered, merchant_account_not_bound, keyed,
  default_merchant_account,
}

pub data PayoutSource : Type 0 where
  mesh_merchant_key registered_profile : PayoutSource

pub record MerchantPayoutAccount : Type 0 where
  pub merchant_did : Text
  pub razorpay_account_id : Text
  pub source : PayoutSource

unfoldable pub is_word : ℕ → Bool
is_word c =
    leb b'a' c && leb c b'z' || leb b'A' c && leb c b'Z' || leb b'0' c && leb c b'9' || c == b'_'

unfoldable pub all_words : Text → Bool
unfolding is_word
all_words [] = true
all_words (c ∷ s) = is_word c && all_words s

unfoldable pub is_filled : Text → Bool
is_filled [] = false
is_filled (c ∷ s) = true

-- `/^acc_[a-zA-Z0-9_]+$/`
unfoldable pub is_razorpay_account_id : Text → Bool
unfolding all_words is_filled starts_with drop
is_razorpay_account_id s =
    starts_with (codes "acc_") s && is_filled (drop 4 s) && all_words (drop 4 s)

unfoldable pub usable_account : Option Text → Option Text
unfolding is_razorpay_account_id
usable_account none = none
usable_account (some account) = if is_razorpay_account_id account then some account else none

module _ (env : Environment) where
  unfoldable pub mesh_merchant_did : Fallible MeshError Text
  unfolding keyed
  mesh_merchant_did = do
    signer ← keyed (from_seed env.nacl env.merchant_private_key_hex)
    fine signer.agent_did

  unfoldable pub read_registered_profile_account : Text → Option Text
  unfolding usable_account
  read_registered_profile_account merchant_did = usable_account (env.profile_account merchant_did)

  -- What follows when the DID is not the mesh's own.
  unfoldable pub registered_payout : Text → Option Text → Fallible MeshError MerchantPayoutAccount
  registered_payout merchant_did none = thrown (merchant_payout_unregistered merchant_did)
  registered_payout merchant_did (some account) = fine (record {
    merchant_did = merchant_did;
    razorpay_account_id = account;
    source = registered_profile;
  })

  unfoldable pub resolve_merchant_payout_account : Text → Fallible MeshError MerchantPayoutAccount
  unfolding registered_payout
  resolve_merchant_payout_account merchant_did = mesh_merchant_did >>= λ own.
      if text_eq merchant_did own
      then fine (record {
        merchant_did = merchant_did;
        razorpay_account_id = default_merchant_account;
        source = mesh_merchant_key;
      })
      else registered_payout merchant_did (read_registered_profile_account merchant_did)

unfoldable pub assert_requested_merchant_account_matches :
    Option Text → MerchantPayoutAccount → Fallible MeshError (Unit {0})
assert_requested_merchant_account_matches none resolved = fine tt
assert_requested_merchant_account_matches (some requested) resolved =
    throw_if (not (text_eq requested resolved.razorpay_account_id))
      (merchant_account_not_bound requested resolved.razorpay_account_id)
