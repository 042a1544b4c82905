-- ===== src/Catalog.antt =====
-- packages/mcpServer/src/catalog/catalogStore.ts: the items and the stock counters. An item that
-- reaches the store has passed `catalogSkuItemSchema.parse`, which changes none of its fields.
-- Embeddings, allergens, dimensions and the origin pincode, which no modelled code reads, are left
-- out of an item. The text of a broadcast message is parsed by `JSON.parse`; the model starts from
-- the parsed event. The schema also admits a GST rate with a fraction; the model's items have whole
-- rates, as the fixtures do.
pub mod Laws
use razoragent_mesh.Prelude.{
  ℕ, ◌≤◌, List, [], ◌∷◌, Option, none, some, Bool, true, false, ◌&&◌, ltb, leb, if◌then◌else◌,
  or_else, Fallible, fine, thrown,
}
use razoragent_mesh.Prelude.Int.{ℤ, pos, ◌+ℤ◌, max_zero}
use razoragent_mesh.Prelude.Text.{Text, text_eq, lower_case}
use razoragent_mesh.Prelude.Dict.{Dict, lookup, insert, erase}
use razoragent_mesh.Pricing.Data.{VolumeTier, ScheduledPromotion, MerchantAuthoredOffers}

pub record CatalogSkuItem : Type 0 where
  pub sku_id : Text
  pub name : Text
  pub category : Text
  pub description : Text
  pub hsn_code : Text
  pub gst_rate_percent : ℕ
  pub base_unit_price_paise : ℕ
  pub available_stock : ℕ
  pub volume_tiers : List VolumeTier
  pub promotions : List ScheduledPromotion
  pub merchant_offers : Option MerchantAuthoredOffers
  pub brand : Option Text
  pub weight_grams : Option ℕ

pub record CatalogStore : Type 0 where
  pub items_map : Dict CatalogSkuItem
  pub stock_map : Dict ℕ

abbrev pub empty_store : CatalogStore
empty_store = record { items_map = []; stock_map = [] }

unfoldable pub add_sku : CatalogSkuItem → CatalogStore → CatalogStore
add_sku item s = record {
  items_map = insert item.sku_id item s.items_map;
  stock_map = insert item.sku_id item.available_stock s.stock_map;
}

-- Both maps are cleared, and the items are added in their order.
seed_from : List CatalogSkuItem → CatalogStore → CatalogStore
seed_from [] s = s
seed_from (item ∷ items) s = seed_from items (add_sku item s)

unfoldable pub seed_catalog : List CatalogSkuItem → CatalogStore → CatalogStore
unfolding seed_from
seed_catalog items s = seed_from items empty_store

abbrev pub is_some {ℓ} : {A : Type ℓ} → Option A → Bool
is_some none = false
is_some (some a) = true

-- The result says whether the item was listed.
unfoldable pub remove_sku : Text → CatalogStore → Bool × CatalogStore
remove_sku sku_id s = (
  is_some (lookup sku_id s.items_map),
  record { items_map = erase sku_id s.items_map; stock_map = erase sku_id s.stock_map },
)

-- The listed item, with the live counter in place of its own stock figure.
with_stock : Option CatalogSkuItem → Option ℕ → Option CatalogSkuItem
with_stock none stock = none
with_stock (some item) stock =
    some (record item { available_stock = or_else stock item.available_stock })

unfoldable pub get_sku : Text → CatalogStore → Option CatalogSkuItem
unfolding with_stock
get_sku sku_id s = with_stock (lookup sku_id s.items_map) (lookup sku_id s.stock_map)

pub data SkuNotFound : Type 0 where
  sku_not_found : Text → SkuNotFound

required : Text → Option CatalogSkuItem → Fallible SkuNotFound CatalogSkuItem
required sku_id none = thrown (sku_not_found sku_id)
required sku_id (some item) = fine item

unfoldable pub get_required_sku : Text → CatalogStore → Fallible SkuNotFound CatalogSkuItem
unfolding required
get_required_sku sku_id s = required sku_id (get_sku sku_id s)

collect : List (Text × CatalogSkuItem) → CatalogStore → List CatalogSkuItem
collect [] s = []
collect ((sku_id, _) ∷ rest) s = elim (get_sku sku_id s) [
  | none ↦ collect rest s
  | some sku ↦ sku ∷ collect rest s
]

unfoldable pub get_all_skus : CatalogStore → List CatalogSkuItem
unfolding collect
get_all_skus s = collect s.items_map s

unfoldable pub get_stock : Text → CatalogStore → ℕ
get_stock sku_id s = or_else (lookup sku_id s.stock_map) 0

-- `Math.max(0, currentStock + quantityDelta)`, written back and returned.
unfoldable pub update_stock : Text → ℤ → CatalogStore → ℕ × CatalogStore
update_stock sku_id delta s =
    let new_stock = max_zero (pos (get_stock sku_id s) +ℤ delta) in
    (new_stock, record s { stock_map = insert sku_id new_stock s.stock_map })

pub record SkuFilterCriteria : Type 0 where
  pub category : Option Text
  pub hsn_code : Option Text
  pub min_stock : Option ℕ
  pub brand : Option Text

-- A criterion that is absent or an empty string excludes nothing.
passes : (Text → Bool) → Option Text → Bool
passes test none = true
passes test (some []) = true
passes test (some (c ∷ wanted)) = test (c ∷ wanted)

same_brand : Option Text → Text → Bool
same_brand none wanted = false
same_brand (some brand) wanted = text_eq (lower_case brand) (lower_case wanted)

enough : Option ℕ → ℕ → Bool
enough none stock = true
enough (some least) stock = leb least stock

unfoldable pub matches : SkuFilterCriteria → CatalogSkuItem → Bool
unfolding passes same_brand enough
matches c sku =
    passes (λ w. text_eq (lower_case sku.category) (lower_case w)) c.category
    && passes (λ w. text_eq sku.hsn_code w) c.hsn_code
    && enough c.min_stock sku.available_stock
    && passes (same_brand sku.brand) c.brand

keep_matching : SkuFilterCriteria → List CatalogSkuItem → List CatalogSkuItem
keep_matching c [] = []
keep_matching c (sku ∷ skus) =
    let rest = keep_matching c skus in if matches c sku then sku ∷ rest else rest

unfoldable pub filter_skus : SkuFilterCriteria → CatalogStore → List CatalogSkuItem
unfolding keep_matching
filter_skus c s = keep_matching c (get_all_skus s)

-- A parsed message on the catalog channel: the action and what it carries.
pub data ActionType : Type 0 where
  item_added item_updated item_removed other : ActionType

pub record ParsedCatalogEvent : Type 0 where
  pub action_type : ActionType
  pub item_data : Option CatalogSkuItem
  pub sku_id : Option Text

apply_event : ActionType → Option CatalogSkuItem → Option Text → CatalogStore → CatalogStore
apply_event ActionType.item_added (some item) sku_id s = add_sku item s
apply_event ActionType.item_updated (some item) sku_id s = add_sku item s
apply_event ActionType.item_removed item (some (c ∷ sku_id)) s = (remove_sku (c ∷ sku_id) s).1
apply_event _ _ _ s = s

unfoldable pub handle_catalog_event : ParsedCatalogEvent → CatalogStore → CatalogStore
unfolding apply_event
handle_catalog_event e = apply_event e.action_type e.item_data e.sku_id
