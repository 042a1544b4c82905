-- ===== src/Inventory/Fencing.antt =====
-- packages/mcpServer/src/inventory/fencingTokenValidator.ts. Tokens are whole numbers here, so the
-- type and integrality tests hold.
use razoragent_mesh.Prelude.{
  ℕ, Option, none, some, Bool, false, not, ◌&&◌, ltb, leb, if◌then◌else◌, Fallible, fine, throw_if,
  ◌>>◌,
}

abbrev pub min_fencing_token_value : ℕ
min_fencing_token_value = 1

unfoldable pub is_valid_fencing_token : ℕ → Bool
is_valid_fencing_token token = leb min_fencing_token_value token

unfoldable pub validate_fencing_monotonicity : ℕ → ℕ → Bool
unfolding is_valid_fencing_token
validate_fencing_monotonicity new_token previous_token =
    if not (is_valid_fencing_token new_token && is_valid_fencing_token previous_token)
    then false
    else ltb previous_token new_token

pub data FencingError : Type 0 where
  invalid_token : ℕ → FencingError
  token_regression : ℕ → ℕ → FencingError

-- The second check, when a last token is known.
check_regression : ℕ → Option ℕ → Fallible FencingError (Unit {0})
check_regression token none = fine tt
check_regression token (some last) =
    throw_if (not (validate_fencing_monotonicity token last)) (token_regression token last)

unfoldable pub assert_valid_fencing_token : ℕ → Option ℕ → Fallible FencingError (Unit {0})
unfolding check_regression is_valid_fencing_token
assert_valid_fencing_token token last_known = do
  throw_if (not (is_valid_fencing_token token)) (invalid_token token)
  check_regression token last_known
