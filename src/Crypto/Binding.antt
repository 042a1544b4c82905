-- ===== src/Crypto/Binding.antt =====
-- What is signed determines every field: no two quotes and no two locks share a payload.
use razoragent_mesh.Prelude.{ℕ, ◌≡◌, ◌∷◌, ◌++◌, arith}
use razoragent_mesh.Prelude.Text.{Text, Lacks, split_unique}
use razoragent_mesh.Prelude.Decimal.{decimal, decimal_injective, decimal-Lacks}
use razoragent_mesh.Crypto.{
  QuoteSignParams, build_quote_payload, LockSignParams, build_lock_payload,
}

pub split_number :
    (m n : ℕ) (s t : Text) → decimal m ++ (b':' ∷ s) ≡ decimal n ++ (b':' ∷ t) → (m ≡ n) × (s ≡ t)
split_number m n s t e =
    let (digits, rest) =
      split_unique b':' (decimal m) (decimal n) s t (decimal-Lacks b':' m (omega arith))
        (decimal-Lacks b':' n (omega arith)) e in
    (decimal_injective m n digits, rest)

-- Two quotes with the same HMAC payload agree in SKU, quantity, price, tax, expiry and buyer, when
-- the SKU ids hold no colon, as the request schema demands of them; a buyer DID may hold some.
pub build_quote_payload_injective :
    (p q : QuoteSignParams)
    → Lacks b':' p.sku_id
    → Lacks b':' q.sku_id
    → build_quote_payload p ≡ build_quote_payload q
    → p ≡ q
unfolding build_quote_payload
build_quote_payload_injective p q hp hq e =
    let (skus, e1) = split_unique b':' _ _ _ _ hp hq e in
    let (quantities, e2) = split_number _ _ _ _ e1 in
    let (prices, e3) = split_number _ _ _ _ e2 in
    let (taxes, e4) = split_number _ _ _ _ e3 in
    let (expiries, buyers) = split_number _ _ _ _ e4 in ground arith

-- Two locks with the same signed payload agree in lock token, fencing token, SKU, quantity and
-- expiry, when neither the tokens, which are UUIDs, nor the SKU ids hold a colon.
pub build_lock_payload_injective :
    (p q : LockSignParams)
    → Lacks b':' p.lock_token × Lacks b':' p.sku_id
    → Lacks b':' q.lock_token × Lacks b':' q.sku_id
    → build_lock_payload p ≡ build_lock_payload q
    → p ≡ q
unfolding build_lock_payload
build_lock_payload_injective p q (tp, sp) (tq, sq) e =
    let (tokens, e1) = split_unique b':' _ _ _ _ tp tq e in
    let (fences, e2) = split_number _ _ _ _ e1 in
    let (skus, e3) = split_unique b':' _ _ _ _ sp sq e2 in
    let (quantities, digits) = split_number _ _ _ _ e3 in
    let expiries = decimal_injective p.expires_at_unix_ms q.expires_at_unix_ms digits in
    ground arith
