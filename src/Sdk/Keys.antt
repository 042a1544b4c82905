-- ===== src/Sdk/Keys.antt =====
-- packages/buyerSdkTs/src/agentKeyManager.ts: agent DIDs, key pairs in hex, signatures. Ed25519 is
-- tweetnacl, an argument, over hex texts where the code has bytes; the random pair that
-- `nacl.sign.keyPair()` draws is an argument of `generate`.
pub mod Did
use razoragent_mesh.Prelude.{
  ℕ, List, [], ◌∷◌, ◌++◌, Option, none, some, Bool, true, false, leb, ◌==◌, ◌&&◌, ◌||◌,
  if◌then◌else◌, not, length, Fallible, fine, thrown, throw_if, ◌>>=◌, ◌>>◌,
}
use razoragent_mesh.Prelude.Text.{Text, codes, trim, lower_case}
use razoragent_mesh.Sdk.Pow.{starts_with}

-- Hex texts: the key pair of a seed, the pair of a secret key, a detached signature under a secret
-- key, and its check with a public key.
pub record KeyPair : Type 0 where
  pub public_key_hex : Text
  pub secret_key_hex : Text

pub record Nacl : Type 0 where
  pub key_pair_from_seed : Text → KeyPair
  pub key_pair_from_secret_key : Text → KeyPair
  pub detached : Text → Text → Text
  pub verify : Text → Text → Text → Bool

pub data KeyError : Type 0 where
  invalid_public_key : KeyError
  invalid_did_format : KeyError
  invalid_did_public_key : KeyError
  invalid_seed : KeyError
  invalid_secret_key : KeyError

abbrev pub did_prefix : Text
did_prefix = codes "did:agent:"

abbrev pub key_hex_length : ℕ
key_hex_length = 64

abbrev pub signature_hex_length : ℕ
signature_hex_length = 128

unfoldable pub is_hex_digit : ℕ → Bool
is_hex_digit c = leb b'0' c && leb c b'9' || leb b'a' c && leb c b'f' || leb b'A' c && leb c b'F'

unfoldable pub is_hex : Text → Bool
unfolding is_hex_digit
is_hex [] = true
is_hex (c ∷ s) = is_hex_digit c && is_hex s

-- `hex64Pattern` and `hex128Pattern`
unfoldable pub is_hex_of : ℕ → Text → Bool
unfolding is_hex
is_hex_of n s = length s == n && is_hex s

unfoldable pub format_agent_did : Text → Fallible KeyError Text
unfolding is_hex_of
format_agent_did public_key_hex = do
  let clean = lower_case (trim public_key_hex)
  throw_if (not (is_hex_of key_hex_length clean)) invalid_public_key
  fine (did_prefix ++ clean)

-- `did.slice(prefix.length)`
unfoldable pub drop : ℕ → Text → Text
drop n [] = []
drop n (c ∷ s) = elim n [ ℕ.zero ↦ c ∷ s | ℕ.suc m ↦ drop m s ]

unfoldable pub extract_public_key_from_did : Text → Fallible KeyError Text
unfolding is_hex_of starts_with drop
extract_public_key_from_did did = do
  throw_if (not (starts_with did_prefix did)) invalid_did_format
  let key = lower_case (trim (drop (length did_prefix) did))
  throw_if (not (is_hex_of key_hex_length key)) invalid_did_public_key
  fine key

pub record AgentKeyManager : Type 0 where
  pub pair : KeyPair
  pub agent_did : Text

-- The end of the constructor, on the pair that it made.
unfoldable pub manager_of : KeyPair → Fallible KeyError AgentKeyManager
manager_of pair = do
  did ← format_agent_did pair.public_key_hex
  fine (record { pair = pair; agent_did = did })

module _ (nacl : Nacl) where
  unfoldable pub from_seed : Text → Fallible KeyError AgentKeyManager
  from_seed seed_hex = do
    throw_if (not (is_hex_of key_hex_length (trim seed_hex))) invalid_seed
    manager_of (nacl.key_pair_from_seed (lower_case (trim seed_hex)))

  unfoldable pub from_secret_key : Text → Fallible KeyError AgentKeyManager
  from_secret_key secret_key_hex = do
    throw_if (not (is_hex_of signature_hex_length (trim secret_key_hex))) invalid_secret_key
    manager_of (nacl.key_pair_from_secret_key (lower_case (trim secret_key_hex)))

  unfoldable pub sign_canonical_bytes : AgentKeyManager → Text → Text
  sign_canonical_bytes m canonical = nacl.detached canonical m.pair.secret_key_hex

  -- `verifySignature` with a public key.
  unfoldable pub verify_signature : Text → Text → Text → Bool
  verify_signature canonical signature_hex public_key_hex =
      let key = trim public_key_hex in
      let signature = trim signature_hex in
      if not (is_hex_of key_hex_length key) || not (is_hex_of signature_hex_length signature)
      then false
      else nacl.verify canonical (lower_case signature) (lower_case key)
