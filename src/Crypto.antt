-- ===== src/Crypto.antt =====
-- packages/mcpServer/src/crypto: what a quote hash and a lock signature are taken over. HMAC-SHA256
-- and Ed25519 themselves (node:crypto, tweetnacl) are arguments of the definitions that use them.
pub mod Binding
use razoragent_mesh.Prelude.{
  ℕ, ◌+◌, ◌-◌, ◌*◌, List, [], ◌∷◌, ◌++◌, Option, none, some, Bool, ◌&&◌, leb, if◌then◌else◌,
}
use razoragent_mesh.Prelude.Text.{Text, text_eq}
use razoragent_mesh.Prelude.Decimal.{decimal}

pub record QuoteSignParams : Type 0 where
  pub sku_id : Text
  pub quantity : ℕ
  pub offered_unit_price_paise : ℕ
  pub total_tax_paise : ℕ
  pub quote_expiry_timestamp : ℕ
  pub buyer_agent_id : Text

-- `${skuId}:${quantity}:${price}:${tax}:${expiry}:${buyer}`
unfoldable pub build_quote_payload : QuoteSignParams → Text
build_quote_payload p =
    p.sku_id
    ++ (b':'
        ∷ (decimal p.quantity
            ++ (b':'
                ∷ (decimal p.offered_unit_price_paise
                    ++ (b':'
                        ∷ (decimal p.total_tax_paise
                            ++ (b':'
                                ∷ (decimal p.quote_expiry_timestamp
                                    ++ (b':' ∷ p.buyer_agent_id)))))))))

-- The hex digits of the HMAC under a key, as a function of the key and the message.
abbrev pub Hmac : Type 0
Hmac = Text → Text → Text

unfoldable pub compute_quote_hash : Hmac → Text → QuoteSignParams → Text
compute_quote_hash hmac secret p = hmac secret (build_quote_payload p)

unfoldable pub hex_value : ℕ → Option ℕ
hex_value c =
    if leb b'0' c && leb c b'9'
    then some (c - 48)
    else if leb b'a' c && leb c b'f'
    then some (c - 87)
    else if leb b'A' c && leb c b'F'
    then some (c - 55)
    else none

-- `Buffer.from(s, "hex")`: pairs of digits, up to the first that is none.
unfoldable pub from_hex : Text → List ℕ
unfolding hex_value
from_hex [] = []
from_hex (c ∷ []) = []
from_hex (c ∷ d ∷ s) =
    let rest = from_hex s in
    elim (hex_value c) [
      | none ↦ []
      | some h ↦ elim (hex_value d) [ none ↦ [] | some l ↦ (h * 16 + l) ∷ rest ]
    ]

-- Equal lengths, and then equal bytes.
unfoldable pub verify_quote_hash : Hmac → Text → QuoteSignParams → Text → Bool
verify_quote_hash hmac secret p expected =
    text_eq (from_hex (compute_quote_hash hmac secret p)) (from_hex expected)

pub record LockSignParams : Type 0 where
  pub lock_token : Text
  pub fencing_token : ℕ
  pub sku_id : Text
  pub quantity_locked : ℕ
  pub expires_at_unix_ms : ℕ

-- `${lockToken}:${fencingToken}:${skuId}:${quantityLocked}:${expiresAtUnixMs}`
unfoldable pub build_lock_payload : LockSignParams → Text
build_lock_payload p =
    p.lock_token
    ++ (b':'
        ∷ (decimal p.fencing_token
            ++ (b':'
                ∷ (p.sku_id
                    ++ (b':'
                        ∷ (decimal p.quantity_locked ++ (b':' ∷ decimal p.expires_at_unix_ms)))))))

-- A detached signature in base64, made with the key of a seed, and its check with the same seed.
pub record Signer : Type 0 where
  pub sign : Text → Text → Text
  pub verify : Text → Text → Text → Bool

unfoldable pub sign_lock_payload : Signer → LockSignParams → Text → Text
sign_lock_payload s p private_key = s.sign private_key (build_lock_payload p)

unfoldable pub verify_lock_signature : Signer → LockSignParams → Text → Text → Bool
verify_lock_signature s p signature private_key =
    s.verify private_key (build_lock_payload p) signature
