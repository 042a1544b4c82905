-- ===== src/Pricing/Tax.antt =====
-- The GST split: the two heads inside a state, the one across states, and how far they differ.
use razoragent_mesh.Prelude.{ℕ, ◌+◌, ◌*◌, ◌≤◌, ◌≡◌, ◌⊎◌, refl, ◌≢◌, arith, Bool-cases, inl, inr}
use razoragent_mesh.Prelude.Text.{Text, text_eq, text_eq_iff, normalise}
use razoragent_mesh.Pricing.Data.{TaxBreakdown}
use razoragent_mesh.Pricing.Volume.{calculate_gst_breakdown}

-- The heads that a tax result has: two equal ones inside a state, or one across states.
abbrev pub IsIntra : TaxBreakdown → Type 0
IsIntra t = (t.cgst_paise ≡ t.sgst_paise) × (t.igst_paise ≡ 0)

abbrev pub IsInter : TaxBreakdown → Type 0
IsInter t = (t.cgst_paise ≡ 0) × (t.sgst_paise ≡ 0)

levy-le : (taxable rate : ℕ) → rate ≤ 100 → taxable * (rate * 100) ≤ taxable * 10000
levy-le taxable rate h = grind arith

-- At a rate of at most 100 percent: states that agree after trimming and upper-casing get CGST
-- and SGST in equal parts and no IGST, any others get IGST alone; the heads add up to the total,
-- and the tax is at most the taxable amount.
pub calculate_gst_breakdown_heads :
    (taxable rate : ℕ) (merchant buyer : Text)
    → rate ≤ 100
    → let t = calculate_gst_breakdown taxable rate merchant buyer in
      ((normalise merchant ≡ normalise buyer) × IsIntra t
        ⊎ (normalise merchant ≢ normalise buyer) × IsInter t)
      × (t.cgst_paise + t.sgst_paise + t.igst_paise ≡ t.total_tax_paise)
      × (t.total_tax_paise ≤ taxable)
unfolding calculate_gst_breakdown
calculate_gst_breakdown_heads taxable rate merchant buyer h =
    let levy = levy-le taxable rate h in
    let iff = text_eq_iff (normalise merchant) (normalise buyer) in
    elim (Bool-cases (text_eq (normalise merchant) (normalise buyer))) [
      | inl e ↦ rw e (inl (iff.0 e, (refl, refl)), omega arith, omega (arith, levy))
      | inr e ↦ rw e (inr ((λ q. cc (iff.1 q)), (refl, refl)), omega arith, omega (arith, levy))
    ]

-- For two states that differ after trimming and upper-casing: splitting the levy in two inside
-- the one costs at most one paise against the undivided rate of a delivery to the other, and
-- never charges more.
pub intra-le-inter :
    (taxable rate : ℕ) (home away : Text)
    → normalise home ≢ normalise away
    → let intra = (calculate_gst_breakdown taxable rate home home).total_tax_paise in
      let inter = (calculate_gst_breakdown taxable rate home away).total_tax_paise in
      (intra ≤ inter) × (inter ≤ intra + 1)
unfolding calculate_gst_breakdown
intra-le-inter taxable rate home away h = ground (
  arith,
  text_eq_iff (normalise home) (normalise home),
  text_eq_iff (normalise home) (normalise away),
)
