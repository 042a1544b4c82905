-- ===== src/Protocol.antt =====
-- The constants of packages/mcpServer/src/constants/protocolConstants.ts and
-- negotiationConstants.ts that the modelled code reads, and the pincode map.
use razoragent_mesh.Prelude.{ℕ, [], ◌∷◌}
use razoragent_mesh.Prelude.Text.{Text, codes}
use razoragent_mesh.Prelude.Dict.{Dict}

abbrev pub bps_divisor : ℕ
bps_divisor = 10000

abbrev pub percent_divisor : ℕ
percent_divisor = 100

abbrev pub intra_state_half_bps_divisor : ℕ
intra_state_half_bps_divisor = 20000

abbrev pub millis_per_second : ℕ
millis_per_second = 1000

abbrev pub festive_campaign_bps : ℕ
festive_campaign_bps = 1000

abbrev pub festive_campaign_cap_paise : ℕ
festive_campaign_cap_paise = 2000

abbrev pub upi_cashback_paise : ℕ
upi_cashback_paise = 150

abbrev pub corporate_promo_bps : ℕ
corporate_promo_bps = 500

abbrev pub quote_validity_seconds : ℕ
quote_validity_seconds = 60

abbrev pub quote_expiry_grace_seconds : ℕ
quote_expiry_grace_seconds = 2

-- negotiationConstants.ts
abbrev pub agreed_price_validity_seconds : ℕ
agreed_price_validity_seconds = 300

abbrev pub micro_fee_per_turn_paise : ℕ
micro_fee_per_turn_paise = 50

abbrev pub initial_escrow_pool_paise : ℕ
initial_escrow_pool_paise = 5000

abbrev pub min_concession_paise : ℕ
min_concession_paise = 500

abbrev pub seller_concession_rate_bps : ℕ
seller_concession_rate_bps = 3000

abbrev pub buyer_concession_rate_bps : ℕ
buyer_concession_rate_bps = 3000

abbrev pub pow_solve_budget_ms : ℕ
pow_solve_budget_ms = 15000

abbrev pub default_merchant_state : Text
default_merchant_state = codes "KA"

abbrev pub default_fallback_state : Text
default_fallback_state = codes "KA"

abbrev pub default_origin_pincode : Text
default_origin_pincode = codes "560001"

-- `pincodePrefixStateMap`
unfoldable pub pincode_prefix_state_map : Dict Text
pincode_prefix_state_map =
    (codes "11", codes "DL")
    ∷ (codes "12", codes "HR")
    ∷ (codes "13", codes "HR")
    ∷ (codes "14", codes "PB")
    ∷ (codes "15", codes "PB")
    ∷ (codes "16", codes "CH")
    ∷ (codes "17", codes "HP")
    ∷ (codes "18", codes "JK")
    ∷ (codes "19", codes "JK")
    ∷ (codes "20", codes "UP")
    ∷ (codes "21", codes "UP")
    ∷ (codes "22", codes "UP")
    ∷ (codes "23", codes "UP")
    ∷ (codes "24", codes "UP")
    ∷ (codes "25", codes "UP")
    ∷ (codes "26", codes "UP")
    ∷ (codes "27", codes "UP")
    ∷ (codes "28", codes "UP")
    ∷ (codes "30", codes "RJ")
    ∷ (codes "31", codes "RJ")
    ∷ (codes "32", codes "RJ")
    ∷ (codes "33", codes "RJ")
    ∷ (codes "34", codes "RJ")
    ∷ (codes "36", codes "GJ")
    ∷ (codes "37", codes "GJ")
    ∷ (codes "38", codes "GJ")
    ∷ (codes "39", codes "GJ")
    ∷ (codes "40", codes "MH")
    ∷ (codes "41", codes "MH")
    ∷ (codes "42", codes "MH")
    ∷ (codes "43", codes "MH")
    ∷ (codes "44", codes "MH")
    ∷ (codes "45", codes "MP")
    ∷ (codes "46", codes "MP")
    ∷ (codes "47", codes "MP")
    ∷ (codes "48", codes "MP")
    ∷ (codes "49", codes "CG")
    ∷ (codes "50", codes "TS")
    ∷ (codes "51", codes "AP")
    ∷ (codes "52", codes "AP")
    ∷ (codes "53", codes "AP")
    ∷ (codes "56", codes "KA")
    ∷ (codes "57", codes "KA")
    ∷ (codes "58", codes "KA")
    ∷ (codes "59", codes "KA")
    ∷ (codes "60", codes "TN")
    ∷ (codes "61", codes "TN")
    ∷ (codes "62", codes "TN")
    ∷ (codes "63", codes "TN")
    ∷ (codes "64", codes "TN")
    ∷ (codes "67", codes "KL")
    ∷ (codes "68", codes "KL")
    ∷ (codes "69", codes "KL")
    ∷ (codes "70", codes "WB")
    ∷ (codes "71", codes "WB")
    ∷ (codes "72", codes "WB")
    ∷ (codes "73", codes "WB")
    ∷ (codes "74", codes "WB")
    ∷ (codes "75", codes "OD")
    ∷ (codes "76", codes "OD")
    ∷ (codes "77", codes "OD")
    ∷ (codes "78", codes "AS")
    ∷ (codes "79", codes "AR")
    ∷ (codes "80", codes "BR")
    ∷ (codes "81", codes "BR")
    ∷ (codes "82", codes "JH")
    ∷ (codes "83", codes "JH")
    ∷ (codes "84", codes "BR")
    ∷ (codes "85", codes "BR")
    ∷ []
