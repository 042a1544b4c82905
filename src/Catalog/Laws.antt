-- ===== src/Catalog/Laws.antt =====
-- What a write to the catalog store does to later reads.
use razoragent_mesh.Prelude.{ℕ, ◌+◌, ◌≤◌, ◌≡◌, if◌then◌else◌, arith}
use razoragent_mesh.Prelude.Int.{ℤ, pos, neg, ◌+ℤ◌}
use razoragent_mesh.Prelude.Text.{Text, text_eq}
use razoragent_mesh.Prelude.Dict.{lookup-insert}
use razoragent_mesh.Catalog.{CatalogStore, get_stock, update_stock}

-- A write to one counter: the new figure there, every other counter as before.
pub get_stock-update_stock :
    (sku k : Text) (delta : ℤ) (s : CatalogStore)
    → get_stock k (update_stock sku delta s).1
      ≡ (if text_eq sku k then (update_stock sku delta s).0 else get_stock k s)
unfolding get_stock update_stock
get_stock-update_stock sku k delta s =
    ground (arith, lookup-insert sku k (update_stock sku delta s).0 s.stock_map)

pub update_stock-credit :
    (sku : Text) (q : ℕ) (s : CatalogStore) → (update_stock sku (pos q) s).0 ≡ get_stock sku s + q
unfolding update_stock ◌+ℤ◌
update_stock-credit sku q s = ground arith

pub update_stock-debit :
    (sku : Text) (q : ℕ) (s : CatalogStore)
    → q ≤ get_stock sku s
    → (update_stock sku (neg q) s).0 + q ≡ get_stock sku s
unfolding update_stock ◌+ℤ◌
update_stock-debit sku q s h = ground arith
