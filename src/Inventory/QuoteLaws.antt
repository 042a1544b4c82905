-- ===== src/Inventory/QuoteLaws.antt =====
-- What the registry of issued quotes answers, over any sequence of recorded quotes.
use razoragent_mesh.Prelude.{
  ℕ, ◌+◌, ◌≤◌, ◌≡◌, ◌≢◌, ◌⊎◌, refl, List, [], ◌∷◌, Option, none, some, Bool, true, false, inl, inr,
  arith, Bool-cases, if◌then◌else◌,
}
use razoragent_mesh.Prelude.Text.{Text, text_eq, text_eq_iff}
use razoragent_mesh.Prelude.Dict.{lookup, lookup-insert, lookup-insert_self}
use razoragent_mesh.Prelude.Dict.Distinct.{IsDistinct, insert-IsDistinct}
use razoragent_mesh.Prelude.Dict.Remove.{remove_if, unless, lookup-remove_if, remove_if-IsDistinct}
use razoragent_mesh.Inventory.IssuedQuotes.{
  IssuedQuote, IssuedQuoteLookup, issued, unknown, expired, IssuedQuoteRegistry, is_lapsed,
  forget_lapsed, record_quote, verdict, verify,
}

-- The lookup that asks for exactly what a quote priced.
abbrev pub asking : IssuedQuote → IssuedQuoteLookup
asking q = record {
  quote_hash = q.quote_hash;
  sku_id = q.sku_id;
  quantity = q.quantity;
  buyer_agent_id = q.buyer_agent_id;
}

abbrev pub Covers : IssuedQuote → IssuedQuoteLookup → Type 0
Covers q l =
    (q.sku_id ≡ l.sku_id) × (q.quantity ≡ l.quantity) × (q.buyer_agent_id ≡ l.buyer_agent_id)

verdict-eq-issued :
    (o : Option IssuedQuote) (l : IssuedQuoteLookup) (now : ℕ) (q : IssuedQuote)
    → verdict o l now ≡ issued q
    → (o ≡ some q) × Covers q l × (now ≤ q.quote_expiry_timestamp + 2)
unfolding verdict is_lapsed
verdict-eq-issued none l now q e = cc
verdict-eq-issued (some p) l now q e =
    ground (arith, text_eq_iff p.sku_id l.sku_id, text_eq_iff p.buyer_agent_id l.buyer_agent_id)

verdict_of_Covers :
    (q : IssuedQuote) (l : IssuedQuoteLookup) (now : ℕ)
    → Covers q l
    → now ≤ q.quote_expiry_timestamp + 2
    → verdict (some q) l now ≡ issued q
unfolding verdict is_lapsed
verdict_of_Covers q l now h live =
    ground (arith, text_eq_iff q.sku_id l.sku_id, text_eq_iff q.buyer_agent_id l.buyer_agent_id)

-- The registry after the quotes of a list were recorded, the last one first.
abbrev pub recorded : List (IssuedQuote × ℕ) → IssuedQuoteRegistry
recorded [] = []
recorded ((q, now) ∷ rest) = record_quote q now (recorded rest)

abbrev pub Recorded : IssuedQuote → List (IssuedQuote × ℕ) → Type 0
Recorded q [] = ⊥
Recorded q ((p, now) ∷ rest) = (q ≡ p) ⊎ Recorded q rest

pub recorded-IsDistinct : (qs : List (IssuedQuote × ℕ)) → IsDistinct (recorded qs)
unfolding record_quote forget_lapsed
recorded-IsDistinct [] = tt
recorded-IsDistinct ((q, now) ∷ rest) =
    insert-IsDistinct q.quote_hash q _
      (remove_if-IsDistinct (is_lapsed now) (recorded rest) (recorded-IsDistinct rest))

lookup-record_quote :
    (k : Text) (q : IssuedQuote) (now : ℕ) (reg : IssuedQuoteRegistry)
    → IsDistinct reg
    → lookup k (record_quote q now reg)
      ≡ (if text_eq q.quote_hash k then some q else unless (is_lapsed now) (lookup k reg))
unfolding record_quote forget_lapsed
lookup-record_quote k q now reg h = ground (
  arith,
  lookup-insert q.quote_hash k q (remove_if (is_lapsed now) reg),
  lookup-remove_if (is_lapsed now) k reg h,
)

unless-eq-some :
    (p : IssuedQuote → Bool) (o : Option IssuedQuote) (q : IssuedQuote)
    → unless p o ≡ some q
    → o ≡ some q
unless-eq-some p none q e = e
unless-eq-some p (some r) q e = ground arith

lookup-recorded :
    (k : Text) (q : IssuedQuote) (qs : List (IssuedQuote × ℕ))
    → lookup k (recorded qs) ≡ some q
    → Recorded q qs × (q.quote_hash ≡ k)
unfolding lookup
lookup-recorded k q [] e = cc
lookup-recorded k q ((p, now) ∷ rest) e =
    let step = lookup-record_quote k p now (recorded rest) (recorded-IsDistinct rest) in
    elim (Bool-cases (text_eq p.quote_hash k)) [
      | inl same ↦
          let found : q ≡ p = ground arith in
          (inl found, rw found ((text_eq_iff p.quote_hash k).0 same))
      | inr other ↦
          let (listed, h) =
            lookup-recorded k q rest
              (unless-eq-some (is_lapsed now) (lookup k (recorded rest)) q (ground arith)) in
          (inr listed, h)
    ]

-- A hash passes only if the mesh recorded a quote under that very hash, for the same SKU, quantity
-- and buyer, and that quote is at most two seconds past its expiry; a fabricated hash never passes.
pub verify_only_recorded :
    (qs : List (IssuedQuote × ℕ)) (l : IssuedQuoteLookup) (now : ℕ) (q : IssuedQuote)
    → verify l now (recorded qs) ≡ issued q
    → Recorded q qs
      × (q.quote_hash ≡ l.quote_hash)
      × Covers q l
      × (now ≤ q.quote_expiry_timestamp + 2)
unfolding verify
verify_only_recorded qs l now q e =
    let (found, covers, live) = verdict-eq-issued (lookup l.quote_hash (recorded qs)) l now q e in
    let (listed, same) = lookup-recorded l.quote_hash q qs found in (listed, same, covers, live)

-- A quote that was just recorded passes for its own purchase until two seconds past its expiry.
pub verify-record_quote :
    (q : IssuedQuote) (now later : ℕ) (reg : IssuedQuoteRegistry)
    → later ≤ q.quote_expiry_timestamp + 2
    → verify (asking q) later (record_quote q now reg) ≡ issued q
unfolding verify record_quote
verify-record_quote q now later reg live =
    rw (lookup-insert_self q.quote_hash q (forget_lapsed now reg))
      (verdict_of_Covers q (asking q) later (refl, refl, refl) live)

lookup-record_quote_ne :
    (k : Text) (q : IssuedQuote) (now : ℕ) (reg : IssuedQuoteRegistry)
    → IsDistinct reg
    → q.quote_hash ≢ k
    → lookup k (record_quote q now reg) ≡ unless (is_lapsed now) (lookup k reg)
lookup-record_quote_ne k q now reg h ne =
    ground (arith, lookup-record_quote k q now reg h, text_eq_iff q.quote_hash k)

not_lapsed :
    (p : IssuedQuote) (now : ℕ) → now ≤ p.quote_expiry_timestamp + 2 → is_lapsed now p ≡ false
unfolding is_lapsed
not_lapsed p now h = ground arith

unknown_of_none : (l : IssuedQuoteLookup) (now : ℕ) → verdict none l now ≡ unknown
unfolding verdict
unknown_of_none l now = refl

-- In a registry that recorded any list of quotes: recording one more, under another hash, never
-- costs a quote its pass, as long as the clock does not run backwards.
pub verify_keeps_others :
    (qs : List (IssuedQuote × ℕ)) (q p : IssuedQuote) (now later : ℕ) (l : IssuedQuoteLookup)
    → q.quote_hash ≢ l.quote_hash
    → now ≤ later
    → verify l later (recorded qs) ≡ issued p
    → verify l later (recorded ((q, now) ∷ qs)) ≡ issued p
unfolding verify
verify_keeps_others qs q p now later l ne order e =
    let (found, covers, live) = verdict-eq-issued (lookup l.quote_hash (recorded qs)) l later p e in
    let kept =
      lookup-record_quote_ne l.quote_hash q now (recorded qs) (recorded-IsDistinct qs) ne in
    rw (kept, found, not_lapsed p now (omega arith)) (verdict_of_Covers p l later covers live)

verdict-eq-expired :
    (o : Option IssuedQuote) (l : IssuedQuoteLookup) (now lapse : ℕ) (p : IssuedQuote)
    → verdict o l now ≡ expired p lapse
    → (o ≡ some p) × (is_lapsed now p ≡ true)
unfolding verdict
verdict-eq-expired none l now lapse p e = cc
verdict-eq-expired (some r) l now lapse p e = ground arith

-- A quote that is reported as expired is so only until the next quote is recorded under another
-- hash: from then on the same request is told that the mesh never issued that hash.
pub lapsed_quote_becomes_unknown :
    (qs : List (IssuedQuote × ℕ)) (l : IssuedQuoteLookup) (q p : IssuedQuote) (lapse now later : ℕ)
    → verify l now (recorded qs) ≡ expired p lapse
    → q.quote_hash ≢ l.quote_hash
    → verify l later (recorded ((q, now) ∷ qs)) ≡ unknown
unfolding verify
lapsed_quote_becomes_unknown qs l q p lapse now later e ne =
    let (found, lapsed) = verdict-eq-expired (lookup l.quote_hash (recorded qs)) l now lapse p e in
    let gone =
      lookup-record_quote_ne l.quote_hash q now (recorded qs) (recorded-IsDistinct qs) ne in
    rw (gone, found, lapsed) (unknown_of_none l later)
