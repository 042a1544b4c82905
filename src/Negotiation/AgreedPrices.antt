-- ===== src/Negotiation/AgreedPrices.antt =====
-- packages/mcpServer/src/negotiation/agreedPriceRegistry.ts. The clock is an argument, in seconds.
use razoragent_mesh.Prelude.{
  ℕ, ◌+◌, [], ◌∷◌, ◌++◌, Option, none, some, Bool, ltb, if◌then◌else◌, length,
}
use razoragent_mesh.Prelude.Text.{Text}
use razoragent_mesh.Prelude.Decimal.{decimal}
use razoragent_mesh.Prelude.Dict.{Dict, lookup, insert}
use razoragent_mesh.Prelude.Dict.Remove.{remove_if}
use razoragent_mesh.Protocol.{agreed_price_validity_seconds}

pub record AgreedPriceLookup : Type 0 where
  pub sku_id : Text
  pub quantity : ℕ
  pub buyer_agent_id : Text

pub record AgreedPrice : Type 0 where
  pub sku_id : Text
  pub quantity : ℕ
  pub buyer_agent_id : Text
  pub agreed_unit_price_paise : ℕ
  pub contract_ast_hash : Option Text
  pub agreement_expires_at : ℕ

-- `${buyerAgentId}|${skuId}|${quantity}`
unfoldable pub agreement_key : AgreedPriceLookup → Text
agreement_key l = l.buyer_agent_id ++ (b'|' ∷ (l.sku_id ++ (b'|' ∷ decimal l.quantity)))

abbrev pub AgreedPriceRegistry : Type 0
AgreedPriceRegistry = Dict AgreedPrice

-- What the purchase of an agreement is looked up by.
abbrev pub purchase : AgreedPrice → AgreedPriceLookup
purchase a = record { sku_id = a.sku_id; quantity = a.quantity; buyer_agent_id = a.buyer_agent_id }

unfoldable pub is_lapsed : ℕ → AgreedPrice → Bool
is_lapsed now a = ltb a.agreement_expires_at now

unfoldable pub forget_lapsed : ℕ → AgreedPriceRegistry → AgreedPriceRegistry
forget_lapsed now = remove_if (is_lapsed now)

-- `AgreedPriceRegistry.record`: the stored agreement, and the registry that holds it.
unfoldable pub record_agreement :
    AgreedPriceLookup
    → ℕ
    → Option Text
    → ℕ
    → AgreedPriceRegistry
    → AgreedPrice × AgreedPriceRegistry
record_agreement l price hash now reg =
    let stored : AgreedPrice = record {
      sku_id = l.sku_id;
      quantity = l.quantity;
      buyer_agent_id = l.buyer_agent_id;
      agreed_unit_price_paise = price;
      contract_ast_hash = hash;
      agreement_expires_at = now + agreed_price_validity_seconds;
    } in
    (stored, insert (agreement_key l) stored (forget_lapsed now reg))

unfoldable pub live : ℕ → Option AgreedPrice → Option AgreedPrice
live now none = none
live now (some a) = if is_lapsed now a then none else some a

unfoldable pub lookup_agreement : AgreedPriceLookup → ℕ → AgreedPriceRegistry → Option AgreedPrice
lookup_agreement l now reg = live now (lookup (agreement_key l) reg)

unfoldable pub size : AgreedPriceRegistry → ℕ
size reg = length reg

unfoldable pub clear : AgreedPriceRegistry → AgreedPriceRegistry
clear reg = []
