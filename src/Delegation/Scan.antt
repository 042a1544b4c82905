-- ===== src/Delegation/Scan.antt =====
-- The search for the expiry that a quote hash was signed with (`reconcileQuote`).
use razoragent_mesh.Prelude.{
  ℕ, zero, suc, ◌+◌, ◌-◌, ◌≤◌, ◌<◌, ◌≡◌, ◌≢◌, ◌⊎◌, inl, inr, refl, Option, none, some, Option-cases,
  Bool, true, Bool-cases, fine, arith,
}
use razoragent_mesh.Delegation.Cart.{scan_expiries, matched_expiry, reject_if_lapsed, live_expiry}

module _ (matches : ℕ → Bool) where
  scan_sound : (left top e : ℕ) → scan_expiries matches left top ≡ some e → matches e ≡ true
  unfolding scan_expiries
  scan_sound zero top e h = absurd (cc)
  scan_sound (suc left) top e h = elim (Bool-cases (matches top)) [
    | inl t ↦ let f = rw t at h in cc
    | inr t ↦ let f = rw t at h in scan_sound left (top - 1) e f
  ]

  scan_complete :
      (left top e : ℕ)
      → e ≤ top
      → top < e + left
      → matches e ≡ true
      → (f : ℕ) × (scan_expiries matches left top ≡ some f)
        × (e ≤ f)
        × (f ≤ top)
        × (matches f ≡ true)
  unfolding scan_expiries
  scan_complete zero top e h k m = absurd (omega arith)
  scan_complete (suc left) top e h k m = elim (Bool-cases (matches top)) [
    | inl t ↦ (top, rw t refl, h, omega arith, t)
    | inr t ↦
        let past : top ≢ e = λ same. cc in
        let (f, found, low, high, matched) =
          scan_complete left (top - 1) e (omega arith) (omega arith) m in
        (f, rw t found, low, omega arith, matched)
  ]

  pub matched_expiry_sound :
      (given : Option ℕ) (now e : ℕ) → matched_expiry matches given now ≡ some e → matches e ≡ true
  unfolding matched_expiry
  matched_expiry_sound none now e h = scan_sound (62 + 62 + 1) (now + 62) e h
  matched_expiry_sound (some expiry) now e h = elim (Bool-cases (matches expiry)) [
    | inl t ↦ let f = rw t at h in cc
    | inr t ↦ let f = rw t at h in absurd (cc)
  ]

  -- With no expiry in the request, an expiry within 62 seconds of now on either side that the hash
  -- matches is enough for the search to find one: the one it finds matches, is no earlier, and is at
  -- most 62 seconds ahead. Whatever the search returns, given an expiry or none, matches.
  pub matched_expiry_found :
      (now e : ℕ) (given : Option ℕ)
      → e ≤ now + 62
      → now ≤ e + 62
      → matches e ≡ true
      → ((f : ℕ) × (matched_expiry matches none now ≡ some f)
          × (e ≤ f)
          × (f ≤ now + 62)
          × (matches f ≡ true))
        × ((matched_expiry matches given now ≡ none)
            ⊎ ((f : ℕ) × (matched_expiry matches given now ≡ some f) × (matches f ≡ true)))
  unfolding matched_expiry
  matched_expiry_found now e given near past m = (
    scan_complete (62 + 62 + 1) (now + 62) e near (omega arith) m,
    elim (Option-cases (matched_expiry matches given now)) [
      | inl missing ↦ inl missing
      | inr (f, found) ↦ inr (f, found, matched_expiry_sound given now f found)
    ],
  )

pub live_expiry-parts :
    (o : Option ℕ) (now : ℕ) → live_expiry o now ≡ fine tt → (e : ℕ) × (o ≡ some e) × (now ≤ e + 2)
unfolding live_expiry reject_if_lapsed
live_expiry-parts none now h = absurd (cc)
live_expiry-parts (some e) now h = (e, refl, ground arith)
