-- ===== src/Sdk/Json/Order.antt =====
-- Keys are in one order, and entries with different keys can be inserted in either order.
use razoragent_mesh.Prelude.{
  ◌≡◌, ◌≢◌, refl, sym, ap, [], ◌∷◌, true, false, Bool-cases, inl, inr, not, arith,
}
use razoragent_mesh.Prelude.Text.{Text}
use razoragent_mesh.Sdk.Json.{Json, Fields, no_fields, field, text_less, insert_field}

text_less-total : (k j : Text) → k ≢ j → text_less k j ≡ not (text_less j k)
unfolding text_less
text_less-total [] [] h = absurd (h refl)
text_less-total [] (d ∷ j) h = refl
text_less-total (c ∷ k) [] h = refl
text_less-total (c ∷ k) (d ∷ j) h =
    let tails = λ (e : c ≡ d). text_less-total k j (λ t. h (cc)) in ground (arith, tails)

text_less-after :
    (i j k : Text) → text_less i j ≡ false → text_less i k ≡ true → text_less j k ≡ true
unfolding text_less
text_less-after [] [] k h e = e
text_less-after [] (d ∷ j) k h e = absurd (cc)
text_less-after (c ∷ i) j [] h e = absurd (cc)
text_less-after (c ∷ i) [] (d ∷ k) h e = refl
text_less-after (c ∷ i) (d ∷ j) (b ∷ k) h e = ground (arith, text_less-after i j k)

pub insert_field-swap :
    (k j : Text) (v w : Json) (fs : Fields)
    → k ≢ j
    → insert_field k v (insert_field j w fs) ≡ insert_field j w (insert_field k v fs)
unfolding insert_field
insert_field-swap k j v w no_fields h = elim (Bool-cases (text_less j k)) [
  | inl e ↦ rw (text_less-total k j h, e) refl
  | inr e ↦ rw (text_less-total k j h, e) refl
]
insert_field-swap k j v w (field i u fs) h =
    let total = text_less-total k j h in
    elim (Bool-cases (text_less i j)) [
      | inl a ↦ elim (Bool-cases (text_less i k)) [
        | inl b ↦ rw a (rw b (rw a (ap (field i u) (insert_field-swap k j v w fs h))))
        | inr b ↦
            let e = text_less-after i k j b a in
            let d : text_less j k ≡ false =
              ground (arith, total, text_less-total j k (λ t. h (sym t))) in
            rw a (rw b (rw (e, a) refl))
      ]
      | inr a ↦ elim (Bool-cases (text_less i k)) [
        | inl b ↦ let e = text_less-after i j k a b in rw a (rw b (rw e (rw a refl)))
        | inr b ↦ elim (Bool-cases (text_less j k)) [
          | inl e ↦ rw a (rw b (rw (total, e) refl))
          | inr e ↦ rw a (rw b (rw (total, e) (rw a refl)))
        ]
      ]
    ]
