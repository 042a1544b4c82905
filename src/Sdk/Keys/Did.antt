-- ===== src/Sdk/Keys/Did.antt =====
-- The DID of a public key gives that key back.
use razoragent_mesh.Prelude.{
  ℕ, ◌≤◌, All, ◌≡◌, refl, [], ◌∷◌, ◌++◌, Bool, true, false, not, fine, throw_if, >>-eq-fine, arith,
}
use razoragent_mesh.Prelude.Text.{Text, trim, trim_start, is_space, lower, lower_case}
use mathlib.Core.List.{reverse, reverse_aux, reverse-reverse, map}
use razoragent_mesh.Sdk.Keys.{
  KeyError, invalid_public_key, did_prefix, is_hex_digit, is_hex, is_hex_of, key_hex_length, drop,
  format_agent_did, extract_public_key_from_did,
}

hex_range : (c : ℕ) → is_hex_digit c ≡ true → (48 ≤ c) × (c ≤ 102)
unfolding is_hex_digit
hex_range c h = ground arith

is_space-range : (c : ℕ) → 48 ≤ c → c ≤ 102 → is_space c ≡ false
unfolding is_space
is_space-range c h k = ground arith

lower-lower : (c : ℕ) → lower (lower c) ≡ lower c
unfolding lower
lower-lower c = ground arith

lower_case-lower_case : (s : Text) → map lower (map lower s) ≡ map lower s
lower_case-lower_case [] = refl
lower_case-lower_case (c ∷ s) = rw (lower-lower c, lower_case-lower_case s) refl

abbrev NoSpaces : Text → Type 0
NoSpaces = All (λ c. is_space c ≡ false)

is_hex-NoSpaces : (s : Text) → is_hex s ≡ true → NoSpaces s
unfolding is_hex
is_hex-NoSpaces [] h = tt
is_hex-NoSpaces (c ∷ s) h =
    let head : is_hex_digit c ≡ true = ground arith in
    let rest : is_hex s ≡ true = ground arith in
    let (low, high) = hex_range c head in (is_space-range c low high, is_hex-NoSpaces s rest)

NoSpaces-reverse_aux : (s t : Text) → NoSpaces s → NoSpaces t → NoSpaces (reverse_aux s t)
NoSpaces-reverse_aux [] t h k = k
NoSpaces-reverse_aux (c ∷ s) t (p, h) k = NoSpaces-reverse_aux s (c ∷ t) h (p, k)

trim_start-NoSpaces : (s : Text) → NoSpaces s → trim_start s ≡ s
unfolding trim_start
trim_start-NoSpaces [] h = refl
trim_start-NoSpaces (c ∷ s) (p, h) = rw p refl

trim-NoSpaces : (s : Text) → NoSpaces s → trim s ≡ s
unfolding trim
trim-NoSpaces s h =
    rw (trim_start-NoSpaces s h, trim_start-NoSpaces (reverse s) (NoSpaces-reverse_aux s [] h tt))
      (reverse-reverse s)

drop_zero : (s : Text) → drop 0 s ≡ s
unfolding drop
drop_zero [] = refl
drop_zero (c ∷ s) = refl

allowed : (t : Bool) (e : KeyError) → throw_if (not t) e ≡ fine tt → t ≡ true
allowed true e h = refl
allowed false e h = absurd (cc)

-- When a public key has a DID, that DID gives back the key, trimmed and in lower case.
pub format_agent_did-extract :
    (public_key_hex did : Text)
    → format_agent_did public_key_hex ≡ fine did
    → extract_public_key_from_did did ≡ fine (lower_case (trim public_key_hex))
unfolding format_agent_did extract_public_key_from_did is_hex_of lower_case
format_agent_did-extract public_key_hex did h =
    let clean = map lower (trim public_key_hex) in
    let (checked, made) =
      >>-eq-fine (throw_if (not (is_hex_of key_hex_length clean)) invalid_public_key)
        (fine (did_prefix ++ clean)) h in
    let valid = allowed (is_hex_of key_hex_length clean) invalid_public_key checked in
    let same : did_prefix ++ clean ≡ did = cc in
    let hex : is_hex clean ≡ true = ground arith in
    rw
      (
        ← same,
        drop_zero clean,
        trim-NoSpaces clean (is_hex-NoSpaces clean hex),
        lower_case-lower_case (trim public_key_hex),
        valid,
      )
      refl
