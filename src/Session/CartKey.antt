-- ===== src/Session/CartKey.antt =====
-- The key of a purchase tells purchases apart.
use razoragent_mesh.Prelude.{
  ℕ, ◌<◌, ◌≡◌, ◌≢◌, refl, sym, ap, ◌∙◌, List, [], ◌∷◌, ◌++◌, append_assoc, All, arith,
}
use razoragent_mesh.Prelude.Text.{Text, Lacks, split_unique}
use razoragent_mesh.Prelude.Decimal.{decimal, decimal_injective, decimal-Lacks}
use razoragent_mesh.Crypto.Binding.{split_number}
use razoragent_mesh.Session.{CartItem, CartMandate, cart_line, cart_lines, build_cart_key}

-- A text without either separator ends where the first one stands.
split_either :
    (c d : ℕ) (a b s t : Text)
    → Lacks c a × Lacks d a
    → Lacks c b × Lacks d b
    → a ++ (c ∷ s) ≡ b ++ (d ∷ t)
    → (a ≡ b) × (c ≡ d) × (s ≡ t)
split_either c d [] [] s t h k e = (refl, cc, cc)
split_either c d [] (y ∷ b) s t h ((yc, k), (yd, k')) e = absurd (yc cc)
split_either c d (x ∷ a) [] s t ((xc, h), (xd, h')) k e = absurd (xd cc)
split_either c d (x ∷ a) (y ∷ b) s t ((xc, h), (xd, h')) ((yc, k), (yd, k')) e =
    let (same, seps, rest) = split_either c d a b s t (h, h') (k, k') cc in (cc, seps, rest)

cart_line-append :
    (i : CartItem) (s : Text)
    → cart_line i ++ s
      ≡ i.sku_id ++ (b':' ∷ (decimal i.quantity ++ (b':' ∷ (decimal i.unit_price_paise ++ s))))
unfolding cart_line
cart_line-append i s =
    append_assoc i.sku_id _ s
    ∙ ap (λ x. i.sku_id ++ (b':' ∷ x)) (append_assoc (decimal i.quantity) _ s)

split_line :
    (i j : CartItem) (c d : ℕ) (s t : Text)
    → Lacks b':' i.sku_id
    → Lacks b':' j.sku_id
    → 57 < c
    → 57 < d
    → cart_line i ++ (c ∷ s) ≡ cart_line j ++ (d ∷ t)
    → (i ≡ j) × (c ≡ d) × (s ≡ t)
split_line i j c d s t hi hj hc hd e =
    let e0 = sym (cart_line-append i (c ∷ s)) ∙ e ∙ cart_line-append j (d ∷ t) in
    let (skus, e1) = split_unique b':' _ _ _ _ hi hj e0 in
    let (quantities, e2) = split_number _ _ _ _ e1 in
    let (digits, seps, rest) =
      split_either c d (decimal i.unit_price_paise) (decimal j.unit_price_paise) s t
        (decimal-Lacks c i.unit_price_paise hc, decimal-Lacks d i.unit_price_paise hd)
        (decimal-Lacks c j.unit_price_paise hc, decimal-Lacks d j.unit_price_paise hd) e2 in
    let prices = decimal_injective i.unit_price_paise j.unit_price_paise digits in
    (ground arith, seps, rest)

abbrev key_of : List CartItem → ℕ → Text
key_of is total = cart_lines is ++ (b':' ∷ decimal total)

-- The separator after an item, and what follows it.
abbrev separator : List CartItem → ℕ
separator [] = b':'
separator (k ∷ ks) = b'|'

abbrev after : List CartItem → ℕ → Text
after [] total = decimal total
after (k ∷ ks) total = key_of (k ∷ ks) total

separator-bound : (is : List CartItem) → 57 < separator is
separator-bound [] = omega arith
separator-bound (k ∷ ks) = omega arith

key_of-cons :
    (i : CartItem) (is : List CartItem) (total : ℕ)
    → key_of (i ∷ is) total ≡ cart_line i ++ (separator is ∷ after is total)
unfolding cart_lines
key_of-cons i [] total = refl
key_of-cons i (k ∷ ks) total = append_assoc (cart_line i) _ (b':' ∷ decimal total)

no_split : (c : ℕ) (a b s : Text) → Lacks c a → a ≢ b ++ (c ∷ s)
no_split c [] [] s h e = cc
no_split c [] (y ∷ b) s h e = cc
no_split c (x ∷ a) [] s (p, h) e = p cc
no_split c (x ∷ a) (y ∷ b) s (p, h) e = no_split c a b s h cc

-- No SKU id holds a colon, as the request schema demands.
abbrev pub ArePlain : List CartItem → Type 0
ArePlain = All (λ i. Lacks b':' i.sku_id)

key_of_none :
    (j : CartItem) (js : List CartItem) (m n : ℕ)
    → Lacks b':' j.sku_id
    → key_of [] m ≢ key_of (j ∷ js) n
unfolding cart_lines
key_of_none j js m n h e =
    let e0 = e ∙ key_of-cons j js n ∙ cart_line-append j (separator js ∷ after js n) in
    let (skus, e1) = split_unique b':' [] _ _ _ tt h e0 in
    no_split b':' (decimal m) _ _ (decimal-Lacks b':' m (omega arith)) e1

split_first :
    (i j : CartItem) (is js : List CartItem) (m n : ℕ)
    → Lacks b':' i.sku_id
    → Lacks b':' j.sku_id
    → key_of (i ∷ is) m ≡ key_of (j ∷ js) n
    → (i ≡ j) × (separator is ≡ separator js) × (after is m ≡ after js n)
split_first i j is js m n hi hj e =
    split_line i j (separator is) (separator js) (after is m) (after js n) hi hj
      (separator-bound is) (separator-bound js) (sym (key_of-cons i is m) ∙ e ∙ key_of-cons j js n)

key_of_none_injective : (m n : ℕ) → key_of [] m ≡ key_of [] n → m ≡ n
unfolding cart_lines
key_of_none_injective m n e = decimal_injective m n cc

apart : separator [] ≢ b'|'
apart e = cc

cons_eq : {i j : CartItem} {is js : List CartItem} → i ≡ j → is ≡ js → (i ∷ is) ≡ (j ∷ js)
cons_eq e f = cc

key_of_injective :
    (is js : List CartItem) (m n : ℕ)
    → ArePlain is
    → ArePlain js
    → key_of is m ≡ key_of js n
    → (is ≡ js) × (m ≡ n)
key_of_injective [] [] m n h k e = (refl, key_of_none_injective m n e)
key_of_injective [] (j ∷ js) m n h (kj, k) e = absurd (key_of_none j js m n kj e)
key_of_injective (i ∷ is) [] m n (hi, h) k e = absurd (key_of_none i is n m hi (sym e))
key_of_injective (i ∷ []) (j ∷ []) m n (hi, h) (kj, k) e =
    let (items, seps, rest) = split_first i j [] [] m n hi kj e in
    (cons_eq items refl, decimal_injective m n rest)
key_of_injective (i ∷ []) (j ∷ b ∷ bs) m n (hi, h) (kj, k) e =
    absurd (apart (split_first i j [] (b ∷ bs) m n hi kj e).1)
key_of_injective (i ∷ a ∷ others) (j ∷ []) m n (hi, h) (kj, k) e =
    absurd (apart (sym (split_first i j (a ∷ others) [] m n hi kj e).1))
key_of_injective (i ∷ a ∷ others) (j ∷ b ∷ bs) m n (hi, h) (kj, k) e =
    let (items, seps, rest) = split_first i j (a ∷ others) (b ∷ bs) m n hi kj e in
    let (more, totals) = key_of_injective (a ∷ others) (b ∷ bs) m n h k rest in
    (cons_eq items more, totals)

-- Two carts with the same key hold the same lines, in the same order, at the same prices, and the
-- same total, when no SKU id in them holds a colon: a purchase of other lines or for another total is
-- not refused as a repeat. The delivery address is no part of a key.
pub build_cart_key_injective :
    (c d : CartMandate)
    → ArePlain c.items
    → ArePlain d.items
    → build_cart_key c ≡ build_cart_key d
    → c ≡ d
unfolding build_cart_key
build_cart_key_injective c d h k e =
    let (items, totals) = key_of_injective c.items d.items c.total_paise d.total_paise h k e in cc
