-- ===== src/Postgres/Connect.antt =====
-- common/db.py: how PostgresStore opens its connection pool. The pool is that of the library
-- psycopg_pool, and what its calls do is a parameter.
use job_processing_workflow.Prelude.{
  ℕ, zero, suc, ◌+◌, ◌<◌, ◌≤◌, ◌↔◌, ◌≡◌, ◌≢◌, refl, ◌⊎◌, inl, inr, String, Option, some, none,
  arith, Option-cases, Bool-cases, nat_eq,
}
use Prim.Native.String
use mathlib.Core.Option.{get_or}

-- What a construction of the store comes to, after how many calls of `open`, and how many seconds
-- of sleep.
pub data Connected : Type 0 where
  opened : Connected
  gave_up : String → Connected

pub record Connection : Type 0 where
  pub result : Connected
  pub calls : ℕ
  pub slept : ℕ

abbrev pub failure : String → Connected
failure last_err = gave_up (String.◌++◌ "could not connect to Postgres: " last_err)

-- `open i` is what the call number `i` of `pool.open(wait=True, timeout=5)` does: nothing if it
-- returns, else the text of the exception.
module _ (open_pool : ℕ → Option String) where
  -- The loop from call `i` on, with `n` rounds left.
  unfoldable pub attempts : (n i slept : ℕ) → (last_err : String) → Connection
  attempts zero i slept last_err = record { result = failure last_err; calls = i; slept = slept }
  attempts (suc n) i slept last_err = elim (open_pool i) [
    | none ↦ record { result = opened; calls = suc i; slept = slept }
    | some err ↦ attempts n (suc i) (slept + 2) err
  ]

  unfoldable pub connect_with_retry : (max_retries : ℕ) → Connection
  connect_with_retry max_retries = attempts max_retries 0 0 "None"

  -- The error of the last of `n` calls.
  abbrev pub last_of : ℕ → String
  last_of zero = "None"
  last_of (suc n) = get_or (open_pool n) "None"

  -- The call number `i` is the first that returns, and it ends the loop.
  pub record OpensAt (i : ℕ) (r : Connection) : Type 0 where
    pub returned : open_pool i ≡ none
    pub first : (j : ℕ) → j < i → open_pool j ≢ none
    pub is : r ≡ record { result = opened; calls = suc i; slept = i + i }

  -- None of the first `n` calls returns, and the loop ends with the error of the last.
  pub record GivesUp (n : ℕ) (r : Connection) : Type 0 where
    pub failed : (j : ℕ) → j < n → open_pool j ≢ none
    pub is : r ≡ record { result = failure (last_of n); calls = n; slept = n + n }

  later :
      (i : ℕ) (err : String)
      → ((j : ℕ) → j < i → open_pool j ≢ none)
      → open_pool i ≡ some err
      → (j : ℕ) → j < suc i
      → open_pool j ≢ none
  later i err before failed j below = elim (Bool-cases (nat_eq j i)) [
    | inl here ↦ let same : j ≡ i = ground arith in rw (same, failed) (λ e. cc e)
    | inr other ↦ before j (ground arith)
  ]

  attempts_cases :
      (n i end slept : ℕ) (last_err : String)
      → ((j : ℕ) → j < i → open_pool j ≢ none)
      → i + n ≡ end
      → slept ≡ i + i
      → last_err ≡ last_of i
      → let r = attempts n i slept last_err in ((k : ℕ) × (k < end) × OpensAt k r) ⊎ GivesUp end r
  unfolding attempts
  attempts_cases zero i end slept last_err before at twice last =
      let same : i ≡ end = omega arith in
      rw (← same) (inr (record { failed = before; is = rw (twice, last) refl }))
  attempts_cases (suc n) i end slept last_err before at twice last =
      elim (Option-cases (open_pool i)) [
        | inl works ↦
            rw (works, attempts)
              (inl
                (i, omega arith, record { returned = works; first = before; is = rw twice refl }))
        | inr (err, fails) ↦
            let rest =
              attempts_cases n (suc i) end (slept + 2) err (later i err before fails) (omega arith)
                (omega arith) (rw fails refl) in
            rw (fails, attempts) rest
      ]

  -- The pool is open after the first call that returns, if it is among the first `max_retries`, and
  -- no call follows; else all of them have been made, and the error is that of the last. There are
  -- two seconds of sleep after each call that has raised, and no other.
  pub connect_with_retry_cases :
      (max_retries : ℕ)
      → let r = connect_with_retry max_retries in
        ((i : ℕ) × (i < max_retries) × OpensAt i r) ⊎ GivesUp max_retries r
  unfolding connect_with_retry
  connect_with_retry_cases max_retries =
      attempts_cases max_retries 0 max_retries 0 "None" (λ j below. absurd (omega arith))
        (omega arith) refl refl

  -- The loop ends after at most `max_retries` calls, and twice as many seconds of sleep.
  pub connect_with_retry_bounds :
      (max_retries : ℕ)
      → let r = connect_with_retry max_retries in
        (r.calls ≤ max_retries)
        × (r.slept ≤ max_retries + max_retries)
        × (r.result ≡ opened ↔ ((i : ℕ) × (i < max_retries) × (open_pool i ≡ none)))
  connect_with_retry_bounds max_retries = elim (connect_with_retry_cases max_retries) [
    | inl (i, below, o) ↦ (
      ground (arith, o.is),
      ground (arith, o.is),
      (λ e. (i, below, o.returned), λ w. ground (arith, o.is)),
    )
    | inr g ↦ (
      ground (arith, g.is),
      ground (arith, g.is),
      (λ e. absurd (ground (arith, g.is, e)), λ (i, below, works). absurd (g.failed i below works)),
    )
  ]
