-- ===== src/Tests/Crypto.antt =====
-- The signed payloads of two equal requests.
use razoragent_mesh.Prelude.{◌≡◌, refl}
use razoragent_mesh.Prelude.Text.{codes, Lacks, Lacks-of_lacks}
use razoragent_mesh.Crypto.{QuoteSignParams, LockSignParams}
use razoragent_mesh.Crypto.Binding.{build_quote_payload_injective, build_lock_payload_injective}
use razoragent_mesh.Tests.Data.{tea, buyer}

abbrev signed : QuoteSignParams
signed = record {
  sku_id = tea;
  quantity = 12;
  offered_unit_price_paise = 80000;
  total_tax_paise = 4000;
  quote_expiry_timestamp = 1560;
  buyer_agent_id = buyer;
}

abbrev lock : LockSignParams
lock = record {
  lock_token = codes "a1-b2";
  fencing_token = 1001;
  sku_id = tea;
  quantity_locked = 12;
  expires_at_unix_ms = 1500000;
}

tea-Lacks : Lacks b':' tea
tea-Lacks = Lacks-of_lacks b':' tea refl

build_quote_payload_injective_example : signed ≡ signed
build_quote_payload_injective_example =
    build_quote_payload_injective signed signed tea-Lacks tea-Lacks refl

build_lock_payload_injective_example : lock ≡ lock
build_lock_payload_injective_example =
    build_lock_payload_injective lock lock (Lacks-of_lacks b':' lock.lock_token refl, tea-Lacks)
      (Lacks-of_lacks b':' lock.lock_token refl, tea-Lacks) refl
