-- ===== src/Tests/Session.antt =====
-- Two delegations of one session, its purchases and its cart keys.
use razoragent_mesh.Prelude.{
  ◌+◌, ◌≤◌, ◌≡◌, ◌≢◌, ◌⊎◌, refl, min, List, [], ◌∷◌, some, or_else, length,
}
use razoragent_mesh.Prelude.Text.{Text, codes, text_eq, Lacks-of_lacks}
use razoragent_mesh.Prelude.Dict.{lookup, insert}
use razoragent_mesh.Session.{
  CartMandate, clear_session_purchases, lowered, declare_session_ceiling, SessionSpendState,
  spend_state, read_session_spend, record_session_spend, record_settled_purchase,
  find_prior_purchase,
}
use razoragent_mesh.Session.Spending.{
  Event, declare, spend, step, run, AllDeclared, run-read_session_spend,
  remaining_within_every_budget,
}
use razoragent_mesh.Session.Memory.{find_prior_purchase-record}
use razoragent_mesh.Session.CartKey.{build_cart_key_injective}
use razoragent_mesh.Tests.Data.{tea}

abbrev mine : Text
mine = codes "s1"

abbrev theirs : Text
theirs = codes "s2"

abbrev day : List Event
day = declare mine 50000 ∷ declare theirs 700 ∷ spend mine 20000 ∷ declare mine 30000 ∷ []

abbrev after_day : SessionSpendState
after_day = record { ceiling_paise = 30000; spent_paise = 20000; remaining_paise = 10000 }

run-read_session_spend_example :
    read_session_spend mine (run day clear_session_purchases) ≡ spend_state (some 30000) 20000
unfolding text_eq lookup lowered
run-read_session_spend_example = run-read_session_spend mine day clear_session_purchases

day-spend : read_session_spend mine (run day clear_session_purchases) ≡ some after_day
unfolding run step read_session_spend spend_state declare_session_ceiling record_session_spend
    lowered lookup insert text_eq
day-spend = refl

remaining_within_every_budget_example :
    AllDeclared mine 30000 day × (10000 + min 20000 30000 ≡ 30000)
remaining_within_every_budget_example =
    remaining_within_every_budget mine day clear_session_purchases after_day day-spend

find_prior_purchase-record_example :
    let found =
      find_prior_purchase mine
        (codes "k1")
        (record_settled_purchase mine (codes "k1") (codes "pay1") clear_session_purchases) in
    ((mine ≡ mine) × (codes "k1" ≡ codes "k1") × (found ≡ some (codes "pay1")))
    ⊎ ((mine ≢ mine) × (found ≡ find_prior_purchase mine (codes "k1") clear_session_purchases))
    ⊎ ((mine ≡ mine)
        × (codes "k1" ≢ codes "k1")
        × (found ≡ find_prior_purchase mine (codes "k1") clear_session_purchases))
    ⊎ ((mine ≡ mine)
        × (codes "k1" ≢ codes "k1")
        × (64
            ≤ length
                (or_else (lookup mine clear_session_purchases.settled_purchases_by_session) [])))
find_prior_purchase-record_example =
    find_prior_purchase-record mine mine (codes "k1") (codes "k1") (codes "pay1")
      clear_session_purchases

abbrev cart : CartMandate
cart = record {
  items = record { sku_id = tea; quantity = 2; unit_price_paise = 80000 } ∷ [];
  total_paise = 168000;
}

build_cart_key_injective_example : cart ≡ cart
build_cart_key_injective_example =
    build_cart_key_injective cart cart (Lacks-of_lacks b':' tea refl, tt)
      (Lacks-of_lacks b':' tea refl, tt) refl
