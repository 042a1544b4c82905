-- ===== src/Negotiation/ToolLaws.antt =====
-- What a call of negotiate_price leaves behind, on every path.
use razoragent_mesh.Prelude.{ℕ, ◌≤◌, ◌≡◌, refl, ◌⊎◌, inl, inr, Option, none, some}
use razoragent_mesh.Prelude.Text.{Text}
use razoragent_mesh.Catalog.{CatalogSkuItem, CatalogStore, get_sku}
use razoragent_mesh.Negotiation.AgreedPrices.{AgreedPriceRegistry, record_agreement}
use razoragent_mesh.Negotiation.Gateway.{Reply, answered, refused, failed, Gateway}
use razoragent_mesh.Negotiation.Loop.{
  NegotiatePriceRequest, NegotiationLoopState, LoopEnd, returned, threw_refusal, threw_failure,
}
use razoragent_mesh.Negotiation.Safety.{
  IsValidRequest, IsHonest, IsAtMost, Ends, run_negotiation_loop-Ends,
}
use razoragent_mesh.Negotiation.Tool.{
  asked, keep_agreement, settle, after_loop, with_escrow, with_sku, negotiate_price,
}

-- The registry after a call: as before, or with an agreement at `price` for this very request.
abbrev pub Bargained :
    NegotiatePriceRequest → ℕ → AgreedPriceRegistry → AgreedPriceRegistry → Type 0
Bargained request now reg reg' =
    (reg' ≡ reg)
    ⊎ ((price : ℕ) × (hash : Option Text) × (reg'
          ≡ (record_agreement (asked request) price hash now reg).1)
        × (price ≤ request.max_unit_price_paise))

keep_agreement-Bargained :
    (request : NegotiatePriceRequest) (o : Option ℕ) (hash : Option Text) (now : ℕ)
    (reg : AgreedPriceRegistry)
    → IsAtMost request.max_unit_price_paise o
    → Bargained request now reg (keep_agreement (asked request) o hash now reg).1
unfolding keep_agreement
keep_agreement-Bargained request none hash now reg h = inl refl
keep_agreement-Bargained request (some price) hash now reg h = inr (price, hash, refl, h)

after_loop-Bargained :
    (request : NegotiatePriceRequest) (sku : CatalogSkuItem) (a b refunded : ℕ) (e : LoopEnd)
    (st : NegotiationLoopState) (reg : AgreedPriceRegistry)
    → IsAtMost request.max_unit_price_paise st.agreed_unit_price_paise
    → Bargained request a reg (after_loop request sku a b refunded e st reg).registry
unfolding after_loop settle
after_loop-Bargained request sku a b refunded returned st reg h =
    keep_agreement-Bargained request st.agreed_unit_price_paise st.contract_ast_hash a reg h
after_loop-Bargained request sku a b refunded (threw_refusal why) st reg h =
    keep_agreement-Bargained request st.agreed_unit_price_paise st.contract_ast_hash a reg h
after_loop-Bargained request sku a b refunded (threw_failure why) st reg h = inl refl

-- For a request whose opening bid is at most its ceiling, against any gateway that converges
-- only when the bid meets the ask it reports, a call puts into the registry nothing, or one
-- agreement, for its own buyer, SKU and quantity, at no more than the buyer's ceiling.
pub negotiate_price-Bargained :
    (g : Gateway) (request : NegotiatePriceRequest) (a b : ℕ) (store : CatalogStore)
    (reg : AgreedPriceRegistry)
    → IsValidRequest request
    → IsHonest g
    → Bargained request a reg (negotiate_price g request a b store reg).registry
unfolding negotiate_price
negotiate_price-Bargained g request a b store reg valid honest = go (get_sku request.sku_id store)
  where
    paid :
        (sku : CatalogSkuItem) (reply : Reply Text)
        → Bargained request a reg (with_escrow g request a b sku reply reg).registry
    paid sku (refused why) = inl refl
    paid sku (failed why) = inl refl
    paid sku (answered token) =
        let list = sku.base_unit_price_paise in
        after_loop-Bargained request sku a b _ _ _ reg
          (Ends.affordable (run_negotiation_loop-Ends g request token list valid honest))

    go :
        (o : Option CatalogSkuItem)
        → Bargained request a reg (with_sku g request a b o reg).registry
    go none = inl refl
    go (some sku) = paid sku _
