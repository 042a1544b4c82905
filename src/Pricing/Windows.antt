-- ===== src/Pricing/Windows.antt =====
-- What `evaluateScheduledPromotions` says of each sale: open, upcoming or over, and at what price.
use razoragent_mesh.Prelude.{
  ℕ, ◌+◌, ◌≤◌, ◌<◌, ◌≡◌, refl, List, [], ◌∷◌, inl, inr, true, ◌&&◌, All, Member, leb, ltb, arith,
  Bool-cases, fine, >>=-eq-fine,
}
use razoragent_mesh.Pricing.Data.{ScheduledPromotion, UpcomingPromotion, EvaluatedPromotionsResult}
use razoragent_mesh.Pricing.Promotions.{
  evaluate_single_scheduled_promotion, classify, evaluate_scheduled_promotions,
}

abbrev pub IsOpen : ℕ → UpcomingPromotion → Type 0
IsOpen now u = (u.starts_at_unix ≤ now) × (now < u.ends_at_unix)

-- The advertised price and the saving make up the base price.
abbrev pub IsPriced : ℕ → UpcomingPromotion → Type 0
IsPriced base u = u.expected_unit_price_paise + u.expected_savings_paise ≡ base

abbrev pub IsSplit : ℕ → ℕ → EvaluatedPromotionsResult → Type 0
IsSplit base now r =
    All (λ u. IsOpen now u × IsPriced base u) r.active_promotions
    × All (λ u. (now < u.starts_at_unix) × IsPriced base u) r.upcoming_promotions

single-IsPriced :
    (base : ℕ) (p : ScheduledPromotion) (u : UpcomingPromotion)
    → evaluate_single_scheduled_promotion base p ≡ fine u
    → IsPriced base u × (u.starts_at_unix ≡ p.starts_at_unix) × (u.ends_at_unix ≡ p.ends_at_unix)
unfolding evaluate_single_scheduled_promotion
single-IsPriced base p u e = ground arith

-- A successful loop has evaluated its first sale and the rest.
pub evaluate-cons :
    (base now : ℕ) (p : ScheduledPromotion) (ps : List ScheduledPromotion)
    (r : EvaluatedPromotionsResult)
    → evaluate_scheduled_promotions base (p ∷ ps) now ≡ fine r
    → (u : UpcomingPromotion) × (s : EvaluatedPromotionsResult)
      × (evaluate_single_scheduled_promotion base p ≡ fine u)
      × (evaluate_scheduled_promotions base ps now ≡ fine s)
      × (r ≡ classify now p u s)
unfolding evaluate_scheduled_promotions
evaluate-cons base now p ps r e =
    let (u, eu, k) = >>=-eq-fine (evaluate_single_scheduled_promotion base p) _ e in
    let (s, es, k') = >>=-eq-fine (evaluate_scheduled_promotions base ps now) _ k in
    (u, s, eu, es, cc)

classify-IsSplit :
    (base now : ℕ) (p : ScheduledPromotion) (u : UpcomingPromotion) (s : EvaluatedPromotionsResult)
    → IsPriced base u
    → u.starts_at_unix ≡ p.starts_at_unix
    → u.ends_at_unix ≡ p.ends_at_unix
    → IsSplit base now s
    → IsSplit base now (classify now p u s)
unfolding classify
classify-IsSplit base now p u s h a b k = ground arith

evaluate-nil :
    (base now : ℕ) (r : EvaluatedPromotionsResult)
    → evaluate_scheduled_promotions base [] now ≡ fine r
    → (r.active_promotions ≡ []) × (r.upcoming_promotions ≡ [])
unfolding evaluate_scheduled_promotions
evaluate-nil base now r e = ground arith

-- When all sales can be evaluated, the active ones are open at `now` and the upcoming ones start
-- later, and each advertised price and its saving make up the base price.
pub evaluate-IsSplit :
    (base now : ℕ) (ps : List ScheduledPromotion) (r : EvaluatedPromotionsResult)
    → evaluate_scheduled_promotions base ps now ≡ fine r
    → IsSplit base now r
unfolding evaluate_scheduled_promotions
evaluate-IsSplit base now [] r e = let (a, b) = evaluate-nil base now r e in rw (a, b) (tt, tt)
evaluate-IsSplit base now (p ∷ ps) r e =
    let (u, s, eu, es, er) = evaluate-cons base now p ps r e in
    let (h, a, b) = single-IsPriced base p u eu in
    rw er (classify-IsSplit base now p u s h a b (evaluate-IsSplit base now ps s es))

classify-keeps :
    (now : ℕ) (p : ScheduledPromotion) (u v : UpcomingPromotion) (s : EvaluatedPromotionsResult)
    → Member v s.active_promotions
    → Member v (classify now p u s).active_promotions
unfolding classify
classify-keeps now p u v s m =
    elim (Bool-cases (leb p.starts_at_unix now && ltb now p.ends_at_unix)) [
      | inl e ↦ rw e (inr m)
      | inr e ↦ elim (Bool-cases (ltb now p.starts_at_unix)) [
        | inl f ↦ rw (e, f) m
        | inr f ↦ rw (e, f) m
      ]
    ]

classify-adds :
    (now : ℕ) (p : ScheduledPromotion) (u : UpcomingPromotion) (s : EvaluatedPromotionsResult)
    → p.starts_at_unix ≤ now
    → now < p.ends_at_unix
    → Member u (classify now p u s).active_promotions
unfolding classify
classify-adds now p u s a b =
    let e : (leb p.starts_at_unix now && ltb now p.ends_at_unix) ≡ true = ground arith in
    rw e (inl refl)

-- When all sales can be evaluated, a sale whose window holds the present moment is among the
-- active ones, as it is evaluated on its own.
pub evaluate-Member_open :
    (base now : ℕ) (ps : List ScheduledPromotion) (r : EvaluatedPromotionsResult)
    (p : ScheduledPromotion)
    → evaluate_scheduled_promotions base ps now ≡ fine r
    → Member p ps
    → p.starts_at_unix ≤ now
    → now < p.ends_at_unix
    → (u : UpcomingPromotion) × (evaluate_single_scheduled_promotion base p ≡ fine u)
      × Member u r.active_promotions
evaluate-Member_open base now [] r p e m a b = absurd m
evaluate-Member_open base now (q ∷ qs) r p e (inl same) a b =
    let (u, s, eu, es, er) = evaluate-cons base now q qs r e in
    (u, rw same eu, rw er (classify-adds now q u s (rw same at a) (rw same at b)))
evaluate-Member_open base now (q ∷ qs) r p e (inr later) a b =
    let (u, s, eu, es, er) = evaluate-cons base now q qs r e in
    let (v, ev, m) = evaluate-Member_open base now qs s p es later a b in
    (v, ev, rw er (classify-keeps now q u v s m))
