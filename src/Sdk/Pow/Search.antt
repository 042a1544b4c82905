-- ===== src/Sdk/Pow/Search.antt =====
-- The search of powSolver.ts ends at the first nonce that meets the difficulty, in one loop or in
-- chunks.
use razoragent_mesh.Prelude.{
  ℕ, zero, suc, ◌+◌, ◌*◌, ◌≤◌, ◌<◌, ◌≡◌, ◌≢◌, refl, ap, Option, none, some, true, false, Bool-cases,
  inl, inr, fine, arith,
}
use razoragent_mesh.Prelude.Text.{Text, trim}
use razoragent_mesh.Sdk.Pow.{
  Digest, meets, is_blank, validate_challenge_token, PowSolution, solution_at, search_from,
  solve_pow_challenge, process_chunk, after_chunk, process_chunks, solve_pow_challenge_async,
  verify_pow_solution,
}

-- `count` nonces from `start` on do not meet the difficulty.
abbrev pub NoneMeet : Digest → Text → ℕ → ℕ → ℕ → Type 0
NoneMeet sha256 token difficulty start zero = Unit
NoneMeet sha256 token difficulty start (suc count) =
    (meets sha256 token difficulty start ≡ false)
    × NoneMeet sha256 token difficulty (start + 1) count

add-left_suc : (m n : ℕ) → suc m + n ≡ suc (m + n)
add-left_suc m n = omega arith

mul-left_suc : (m n : ℕ) → suc m * n ≡ n + m * n
mul-left_suc m n = omega arith

mul-left_zero : (n : ℕ) → 0 * n ≡ 0
mul-left_zero n = omega arith

module _ (sha256 : Digest) (token : Text) (difficulty : ℕ) where
  search_from-first :
      (fuel nonce good : ℕ)
      → nonce ≤ good
      → good < nonce + fuel
      → meets sha256 token difficulty good ≡ true
      → (c : ℕ) × (first : ℕ) × (first ≡ nonce + c)
        × (first ≤ good)
        × (meets sha256 token difficulty first ≡ true)
        × NoneMeet sha256 token difficulty nonce c
        × (search_from sha256 token difficulty fuel nonce
            ≡ some (solution_at sha256 token difficulty first))
  unfolding search_from
  search_from-first zero nonce good h k m = absurd (omega arith)
  search_from-first (suc fuel) nonce good h k m =
      elim (Bool-cases (meets sha256 token difficulty nonce)) [
        | inl e ↦ (0, nonce, omega arith, h, e, tt, rw e refl)
        | inr e ↦
            let past : nonce ≢ good = λ same. cc in
            let (c, first, place, below, met, none_before, found) =
              search_from-first fuel (nonce + 1) good (omega arith) (omega arith) m in
            (suc c, first, omega arith, below, met, (e, none_before), rw e found)
      ]

  search_from-append :
      (size rest nonce : ℕ)
      → search_from sha256 token difficulty (size + rest) nonce
        ≡ after_chunk sha256 token difficulty
            (process_chunk sha256 token difficulty size nonce)
            (search_from sha256 token difficulty rest)
  unfolding search_from process_chunk after_chunk
  search_from-append zero rest nonce =
      ap (λ n. search_from sha256 token difficulty n nonce) (omega arith)
  search_from-append (suc size) rest nonce =
      elim (Bool-cases (meets sha256 token difficulty nonce)) [
        | inl e ↦ rw (add-left_suc size rest, e) refl
        | inr e ↦ rw (add-left_suc size rest, e) (search_from-append size rest (nonce + 1))
      ]

  after_chunk-same :
      (r : Option PowSolution × ℕ) (f g : ℕ → Option PowSolution)
      → ((n : ℕ) → f n ≡ g n)
      → after_chunk sha256 token difficulty r f ≡ after_chunk sha256 token difficulty r g
  unfolding after_chunk
  after_chunk-same (some s, n) f g h = refl
  after_chunk-same (none, n) f g h = h n

  process_chunks-search :
      (chunks size nonce : ℕ)
      → process_chunks sha256 token difficulty chunks size nonce
        ≡ search_from sha256 token difficulty (chunks * size) nonce
  unfolding process_chunks search_from
  process_chunks-search zero size nonce = rw (mul-left_zero size) refl
  process_chunks-search (suc chunks) size nonce =
      rw (mul-left_suc chunks size, search_from-append size (chunks * size) nonce)
        (after_chunk-same (process_chunk sha256 token difficulty size nonce) _ _
          (process_chunks-search chunks size))

  not_blank : is_blank (trim token) ≡ false → validate_challenge_token token ≡ fine tt
  unfolding validate_challenge_token
  not_blank h = rw h refl

  -- When some nonce meets the difficulty and the token is not blank, the search returns on every fuel
  -- above that nonce. It returns the first nonce that meets the difficulty, with its digest, and
  -- `verify_pow_solution` accepts that nonce with that digest.
  pub solve_pow_challenge-returns_first :
      (good fuel : ℕ)
      → is_blank (trim token) ≡ false
      → meets sha256 token difficulty good ≡ true
      → good < fuel
      → (first : ℕ) × (first ≤ good)
        × NoneMeet sha256 token difficulty 0 first
        × (solve_pow_challenge sha256 token difficulty fuel
            ≡ fine (some (solution_at sha256 token difficulty first)))
        × (verify_pow_solution sha256 token difficulty first
            ≡ fine (record {
              is_valid = true;
              challenge_token = token;
              computed_digest = (solution_at sha256 token difficulty first).computed_digest;
            }))
  unfolding solve_pow_challenge verify_pow_solution solution_at
  solve_pow_challenge-returns_first good fuel filled met enough =
      let (c, first, place, below, meeting, before, found) =
        search_from-first fuel 0 good (omega arith) (omega arith) met in
      let same : first ≡ c = omega arith in
      (
        first,
        below,
        rw same before,
        rw (not_blank filled, found) refl,
        rw (not_blank filled, meeting) refl,
      )

  -- The search in chunks returns, after any number of chunks of any size, what the loop returns after
  -- as many nonces in all.
  pub solve_pow_challenge_async-sync :
      (chunks chunk_size : ℕ)
      → solve_pow_challenge_async sha256 token difficulty chunks chunk_size
        ≡ solve_pow_challenge sha256 token difficulty (chunks * chunk_size)
  unfolding solve_pow_challenge solve_pow_challenge_async
  solve_pow_challenge_async-sync chunks chunk_size =
      rw (process_chunks-search chunks chunk_size 0) refl
