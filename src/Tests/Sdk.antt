-- ===== src/Tests/Sdk.antt =====
-- The buyer's SDK on small inputs, with stand-ins for SHA-256 and Ed25519.
use razoragent_mesh.Prelude.{ℕ, ◌≤◌, ◌≡◌, ◌≢◌, refl, [], ◌∷◌, ◌++◌, some, true, fine, arith}
use razoragent_mesh.Prelude.Int.{pos}
use razoragent_mesh.Prelude.Text.{
  Text, codes, trim, trim_start, is_space, lower, lower_case, text_eq, text_eq_iff,
}
use razoragent_mesh.Prelude.Decimal.{decimal}
use razoragent_mesh.Sdk.Json.{
  Json, integer, object, no_fields, field, verify_no_floats, text_less, insert_field,
  normalize_for_jcs, stringify, quote, escape, print_integer, canonicalize_json_string,
}
use razoragent_mesh.Sdk.Json.Canonical.{
  SameJson, same_object, same_none, swapped, canonicalize_json_string-order,
}
use razoragent_mesh.Sdk.Pow.{
  Digest, candidate, meets, starts_with, zeros, is_blank, PowSolution, solution_at,
  solve_pow_challenge, solve_pow_challenge_async, verify_pow_solution,
}
use razoragent_mesh.Sdk.Pow.Search.{
  NoneMeet, solve_pow_challenge-returns_first, solve_pow_challenge_async-sync,
}
use razoragent_mesh.Sdk.Keys.{
  did_prefix, is_hex_digit, is_hex, is_hex_of, format_agent_did, extract_public_key_from_did,
}
use razoragent_mesh.Sdk.Keys.Did.{format_agent_did-extract}

-- A stand-in for SHA-256: the last code unit of the text, and then the text.
abbrev last : ℕ → Text → ℕ
last d [] = d
last d (c ∷ s) = last c s

abbrev pub sum_of : Digest
sum_of s = last 0 s ∷ s

abbrev puzzle : Text
puzzle = codes "t"

abbrev first_solution : ℕ → PowSolution
first_solution n = solution_at sum_of puzzle 1 n

solve_pow_challenge-returns_first_example :
    (first : ℕ) × (first ≤ 20)
    × NoneMeet sum_of puzzle 1 0 first
    × (solve_pow_challenge sum_of puzzle 1 25 ≡ fine (some (first_solution first)))
    × (verify_pow_solution sum_of puzzle 1 first
        ≡ fine (record {
          is_valid = true;
          challenge_token = puzzle;
          computed_digest = (first_solution first).computed_digest;
        }))
unfolding is_blank trim trim_start is_space meets starts_with zeros candidate decimal
solve_pow_challenge-returns_first_example =
    solve_pow_challenge-returns_first sum_of puzzle 1 20 25 refl refl (omega arith)

solve_pow_challenge_async-sync_example :
    solve_pow_challenge_async sum_of puzzle 1 3 4 ≡ solve_pow_challenge sum_of puzzle 1 12
solve_pow_challenge_async-sync_example = solve_pow_challenge_async-sync sum_of puzzle 1 3 4

abbrev ab : Json
ab = object (field (codes "a") (integer (pos 1)) (field (codes "b") (integer (pos 2)) no_fields))

abbrev ba : Json
ba = object (field (codes "b") (integer (pos 2)) (field (codes "a") (integer (pos 1)) no_fields))

a-ne-b : codes "a" ≢ codes "b"
unfolding text_eq
a-ne-b e = let t = (text_eq_iff (codes "a") (codes "b")).1 e in cc

ab-ba : SameJson ab ba
ab-ba = same_object (swapped {v = integer (pos 1)} {w = integer (pos 2)} a-ne-b same_none)

canonicalize_json_string-order_example :
    canonicalize_json_string ba ≡ fine (codes "{\"a\":1,\"b\":2}")
unfolding canonicalize_json_string verify_no_floats normalize_for_jcs insert_field text_less
    stringify quote escape print_integer decimal
canonicalize_json_string-order_example =
    canonicalize_json_string-order (codes "{\"a\":1,\"b\":2}") ab-ba refl

-- A public key of 64 hex digits.
abbrev pub some_key : Text
some_key = zeros 63 ++ (b'A' ∷ [])

format_agent_did-extract_example :
    extract_public_key_from_did (did_prefix ++ (zeros 63 ++ (b'a' ∷ [])))
    ≡ fine (lower_case (trim some_key))
unfolding format_agent_did is_hex_of is_hex is_hex_digit lower_case lower trim trim_start is_space
    zeros
format_agent_did-extract_example =
    format_agent_did-extract some_key (did_prefix ++ (zeros 63 ++ (b'a' ∷ []))) refl
