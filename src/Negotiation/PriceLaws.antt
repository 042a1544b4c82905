-- ===== src/Negotiation/PriceLaws.antt =====
-- An agreed price is found for its own purchase while it lasts, and for no other purchase.
use razoragent_mesh.Prelude.{
  ℕ, ◌+◌, ◌≤◌, ◌≡◌, ◌≢◌, refl, Option, none, some, arith, ltb, if◌then◌else◌,
}
use razoragent_mesh.Prelude.Text.{Text, Lacks, split_unique}
use razoragent_mesh.Prelude.Decimal.{decimal_injective}
use razoragent_mesh.Prelude.Dict.{lookup, lookup-insert_self, lookup-insert_ne}
use razoragent_mesh.Prelude.Dict.Distinct.{IsDistinct, insert-IsDistinct}
use razoragent_mesh.Prelude.Dict.Remove.{remove_if, unless, lookup-remove_if, remove_if-IsDistinct}
use razoragent_mesh.Negotiation.AgreedPrices.{
  AgreedPriceLookup, AgreedPrice, agreement_key, AgreedPriceRegistry, is_lapsed, forget_lapsed,
  record_agreement, live, lookup_agreement,
}

-- The request schemas admit no `|` in an agent DID or a SKU id.
abbrev pub HasPlainIds : AgreedPriceLookup → Type 0
HasPlainIds l = Lacks b'|' l.buyer_agent_id × Lacks b'|' l.sku_id

-- Two purchases with the same key are the same purchase, when no buyer DID and no SKU id holds a
-- `|`, as the request schemas demand.
pub agreement_key_injective :
    (l m : AgreedPriceLookup)
    → HasPlainIds l
    → HasPlainIds m
    → agreement_key l ≡ agreement_key m
    → l ≡ m
unfolding agreement_key
agreement_key_injective l m (bl, sl) (bm, sm) e =
    let (buyers, rest) = split_unique b'|' _ _ _ _ bl bm e in
    let (skus, numbers) = split_unique b'|' _ _ _ _ sl sm rest in
    ground (arith, decimal_injective l.quantity m.quantity numbers)

-- The buyer who struck a bargain finds it for 300 seconds, and not after, whatever was agreed
-- before.
pub lookup-record_agreement_self :
    (l : AgreedPriceLookup) (price : ℕ) (hash : Option Text) (now later : ℕ)
    (reg : AgreedPriceRegistry)
    → let (stored, reg') = record_agreement l price hash now reg in
      lookup_agreement l later reg' ≡ (if ltb (now + 300) later then none else some stored)
unfolding record_agreement lookup_agreement live is_lapsed
lookup-record_agreement_self l price hash now later reg =
    rw (lookup-insert_self (agreement_key l) _ (forget_lapsed now reg)) (live_lem later _)
  where
    live_lem :
        (t : ℕ) (a : AgreedPrice)
        → live t (some a) ≡ (if ltb a.agreement_expires_at t then none else some a)
    live_lem t a = refl

live-unless :
    (now later : ℕ) (o : Option AgreedPrice)
    → now ≤ later
    → live later (unless (is_lapsed now) o) ≡ live later o
unfolding live is_lapsed
live-unless now later none h = refl
live-unless now later (some a) h = ground arith

-- A bargain is private to its purchase: recording it, in a registry with one entry for each key,
-- changes the answer for no purchase by another buyer, of another SKU or of another quantity, at
-- that moment or later, when no buyer DID and no SKU id holds a `|`, as the request schemas
-- demand.
pub lookup-record_agreement_other :
    (l m : AgreedPriceLookup) (price : ℕ) (hash : Option Text) (now later : ℕ)
    (reg : AgreedPriceRegistry)
    → IsDistinct reg
    → HasPlainIds l
    → HasPlainIds m
    → l ≢ m
    → now ≤ later
    → lookup_agreement m later (record_agreement l price hash now reg).1
      ≡ lookup_agreement m later reg
unfolding record_agreement lookup_agreement forget_lapsed
lookup-record_agreement_other l m price hash now later reg d pl pm ne order =
    let other : agreement_key l ≢ agreement_key m = λ e. ne (agreement_key_injective l m pl pm e) in
    rw
      (lookup-insert_ne (agreement_key l) (agreement_key m) _ (remove_if (is_lapsed now) reg) other)
      (rw (lookup-remove_if (is_lapsed now) (agreement_key m) reg d)
        (live-unless now later (lookup (agreement_key m) reg) order))

pub record_agreement-IsDistinct :
    (l : AgreedPriceLookup) (price : ℕ) (hash : Option Text) (now : ℕ) (reg : AgreedPriceRegistry)
    → IsDistinct reg
    → IsDistinct (record_agreement l price hash now reg).1
unfolding record_agreement forget_lapsed
record_agreement-IsDistinct l price hash now reg d =
    insert-IsDistinct _ _ _ (remove_if-IsDistinct (is_lapsed now) reg d)
