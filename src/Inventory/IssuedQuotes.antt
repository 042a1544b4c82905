-- ===== src/Inventory/IssuedQuotes.antt =====
-- packages/mcpServer/src/inventory/issuedQuoteRegistry.ts: the quotes that the mesh has issued.
-- The clock is an argument, in seconds.
use razoragent_mesh.Prelude.{
  ℕ, ◌+◌, ◌-◌, [], Option, none, some, Bool, not, ◌||◌, ltb, ◌==◌, if◌then◌else◌, length,
}
use razoragent_mesh.Prelude.Text.{Text, text_eq}
use razoragent_mesh.Prelude.Dict.{Dict, lookup, insert}
use razoragent_mesh.Prelude.Dict.Remove.{remove_if}
use razoragent_mesh.Protocol.{quote_expiry_grace_seconds}

pub record IssuedQuote : Type 0 where
  pub quote_hash : Text
  pub sku_id : Text
  pub quantity : ℕ
  pub buyer_agent_id : Text
  pub quote_expiry_timestamp : ℕ

pub record IssuedQuoteLookup : Type 0 where
  pub quote_hash : Text
  pub sku_id : Text
  pub quantity : ℕ
  pub buyer_agent_id : Text

pub data IssuedQuoteVerdict : Type 0 where
  issued : IssuedQuote → IssuedQuoteVerdict
  unknown : IssuedQuoteVerdict
  expired : IssuedQuote → ℕ → IssuedQuoteVerdict
  parameters_differ : IssuedQuote → IssuedQuoteVerdict

abbrev pub IssuedQuoteRegistry : Type 0
IssuedQuoteRegistry = Dict IssuedQuote

-- `quoteExpiryTimestamp < nowUnix - quoteExpiryGraceSeconds`, over the integers.
unfoldable pub is_lapsed : ℕ → IssuedQuote → Bool
is_lapsed now q = ltb (q.quote_expiry_timestamp + quote_expiry_grace_seconds) now

unfoldable pub forget_lapsed : ℕ → IssuedQuoteRegistry → IssuedQuoteRegistry
forget_lapsed now = remove_if (is_lapsed now)

-- `IssuedQuoteRegistry.record`
unfoldable pub record_quote : IssuedQuote → ℕ → IssuedQuoteRegistry → IssuedQuoteRegistry
record_quote q now reg = insert q.quote_hash q (forget_lapsed now reg)

unfoldable pub verdict : Option IssuedQuote → IssuedQuoteLookup → ℕ → IssuedQuoteVerdict
verdict none requested now = unknown
verdict (some q) requested now =
    if is_lapsed now q
    then expired q (now - q.quote_expiry_timestamp)
    else if not (text_eq q.sku_id requested.sku_id)
        || not (q.quantity == requested.quantity)
        || not (text_eq q.buyer_agent_id requested.buyer_agent_id)
    then parameters_differ q
    else issued q

unfoldable pub verify : IssuedQuoteLookup → ℕ → IssuedQuoteRegistry → IssuedQuoteVerdict
unfolding verdict is_lapsed
verify requested now reg = verdict (lookup requested.quote_hash reg) requested now

unfoldable pub size : IssuedQuoteRegistry → ℕ
size reg = length reg

unfoldable pub clear : IssuedQuoteRegistry → IssuedQuoteRegistry
clear reg = []
