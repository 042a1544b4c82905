-- ===== src/Sdk/Pow.antt =====
-- packages/buyerSdkTs/src/powSolver.ts: the search for a proof of work, at once and in chunks, and
-- its check. SHA-256 is an argument, as the hex digits of a text's digest. The code's `while (true)`
-- and its chain of callbacks are recursions on fuel.
pub mod Search
use razoragent_mesh.Prelude.{
  ℕ, zero, suc, ◌+◌, List, [], ◌∷◌, ◌++◌, Option, none, some, Bool, true, false, ◌==◌, ◌&&◌,
  if◌then◌else◌, length, Fallible, fine, thrown, throw_if, ◌>>=◌, ◌>>◌,
}
use razoragent_mesh.Prelude.Text.{Text, trim}
use razoragent_mesh.Prelude.Decimal.{decimal}

abbrev pub Digest : Type 0
Digest = Text → Text

abbrev pub default_pow_chunk_size : ℕ
default_pow_chunk_size = 10000

-- `"0".repeat(n)`
unfoldable pub zeros : ℕ → Text
zeros zero = []
zeros (suc n) = b'0' ∷ zeros n

-- `s.startsWith(prefix)`
unfoldable pub starts_with : Text → Text → Bool
starts_with [] s = true
starts_with (p ∷ prefix) [] = false
starts_with (p ∷ prefix) (c ∷ s) = p == c && starts_with prefix s

-- `${challengeToken}:${nonce}`
unfoldable pub candidate : Text → ℕ → Text
candidate token nonce = token ++ (b':' ∷ decimal nonce)

-- Whether a nonce's digest meets the difficulty.
unfoldable pub meets : Digest → Text → ℕ → ℕ → Bool
unfolding starts_with candidate zeros
meets sha256 token difficulty nonce =
    starts_with (zeros difficulty) (sha256 (candidate token nonce))

pub data PowError : Type 0 where
  empty_challenge_token : PowError

unfoldable pub is_blank : Text → Bool
is_blank [] = true
is_blank (c ∷ s) = false

unfoldable pub validate_challenge_token : Text → Fallible PowError (Unit {0})
unfolding is_blank
validate_challenge_token token = throw_if (is_blank (trim token)) empty_challenge_token

pub record PowSolution : Type 0 where
  pub nonce : ℕ
  pub computed_digest : Text

pub record PowVerificationResult : Type 0 where
  pub is_valid : Bool
  pub challenge_token : Text
  pub computed_digest : Text

module _ (sha256 : Digest) (token : Text) (difficulty : ℕ) where
  unfoldable pub solution_at : ℕ → PowSolution
  solution_at nonce = record { nonce = nonce; computed_digest = sha256 (candidate token nonce) }

  -- The loop of `solvePowChallenge` from a nonce on; `none` when the fuel runs out.
  unfoldable pub search_from : ℕ → ℕ → Option PowSolution
  search_from zero nonce = none
  search_from (suc fuel) nonce =
      let later = search_from fuel (nonce + 1) in
      if meets sha256 token difficulty nonce then some (solution_at nonce) else later

  unfoldable pub solve_pow_challenge : ℕ → Fallible PowError (Option PowSolution)
  unfolding validate_challenge_token
  solve_pow_challenge fuel = do validate_challenge_token token; fine (search_from fuel 0)

  -- One run of `processChunk`: the solution, or the nonce to go on from.
  unfoldable pub process_chunk : ℕ → ℕ → Option PowSolution × ℕ
  process_chunk zero nonce = (none, nonce)
  process_chunk (suc left) nonce =
      let later = process_chunk left (nonce + 1) in
      if meets sha256 token difficulty nonce then (some (solution_at nonce), nonce) else later

  unfoldable pub after_chunk :
      Option PowSolution × ℕ → (ℕ → Option PowSolution) → Option PowSolution
  after_chunk (some s, nonce) more = some s
  after_chunk (none, nonce) more = more nonce

  -- The callbacks that `setImmediate` queues, one for each chunk.
  unfoldable pub process_chunks : ℕ → ℕ → ℕ → Option PowSolution
  unfolding after_chunk
  process_chunks zero chunk_size nonce = none
  process_chunks (suc chunks) chunk_size nonce =
      after_chunk (process_chunk chunk_size nonce) (process_chunks chunks chunk_size)

  unfoldable pub solve_pow_challenge_async : ℕ → ℕ → Fallible PowError (Option PowSolution)
  unfolding validate_challenge_token
  solve_pow_challenge_async chunks chunk_size = do
    validate_challenge_token token
    fine (process_chunks chunks chunk_size 0)

  unfoldable pub verify_pow_solution : ℕ → Fallible PowError PowVerificationResult
  unfolding validate_challenge_token
  verify_pow_solution nonce = do
    validate_challenge_token token
    fine (record {
      is_valid = meets sha256 token difficulty nonce;
      challenge_token = token;
      computed_digest = sha256 (candidate token nonce);
    })
