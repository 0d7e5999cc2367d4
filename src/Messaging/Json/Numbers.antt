-- ===== src/Messaging/Json/Numbers.antt =====
-- Numbers in decimal digits, as the module json writes and then reads them.
use job_processing_workflow.Prelude.{
  ℕ, zero, suc, ◌+◌, ◌-◌, ◌<◌, ◌≡◌, inl, inr, refl, ap, sym, subst, ◌∙◌, false, true, String, some,
  nat_eq, ltb, between, arith, Bool-cases, digit, decimal_from, decimal, below_ten,
}
use Prim.Native.Nat.{◌*◌, ◌/◌, ◌%◌}
use Prim.Native.Char.{Char, code}
use Prim.Native.String
use text.Mathlib.TextLemmas.{cons-append, nil-append, append_assoc}
use job_processing_workflow.Messaging.Json.Reading.{more_digits, natural}

-- A digit in front of a text, digit by digit.
more_digits-digit :
    (d n : ℕ) (rest : String)
    → d < 10
    → more_digits n (String.◌++◌ (digit d) rest) ≡ more_digits (n * 10 + d) rest
unfolding digit
more_digits-digit d n rest h =
    below_ten (λ k. more_digits n (String.◌++◌ (digit k) rest) ≡ more_digits (n * 10 + k) rest)
      (one "0" refl) (one "1" refl) (one "2" refl) (one "3" refl) (one "4" refl) (one "5" refl)
      (one "6" refl) (one "7" refl) (one "8" refl) (one "9" refl) d h
  where
    one :
        (c : Char)
        → between b'0' b'9' (code c) ≡ true
        → more_digits n (String.◌++◌ (String.◌∷◌ c String.[]) rest)
          ≡ more_digits (n * 10 + (code c - b'0')) rest
    one c e = rw (cons-append, nil-append, e) refl

natural-digit :
    (d : ℕ) (rest : String)
    → d < 10
    → 0 < d
    → natural (String.◌++◌ (digit d) rest) ≡ some (more_digits d rest)
unfolding digit
natural-digit d rest h positive =
    below_ten (λ k. 0 < k → natural (String.◌++◌ (digit k) rest) ≡ some (more_digits k rest))
      (λ no. absurd (omega arith)) (λ _. one "1" refl refl) (λ _. one "2" refl refl)
      (λ _. one "3" refl refl) (λ _. one "4" refl refl) (λ _. one "5" refl refl)
      (λ _. one "6" refl refl) (λ _. one "7" refl refl) (λ _. one "8" refl refl)
      (λ _. one "9" refl refl) d h positive
  where
    one :
        (c : Char)
        → nat_eq (code c) b'0' ≡ false
        → between b'1' b'9' (code c) ≡ true
        → natural (String.◌++◌ (String.◌∷◌ c String.[]) rest)
          ≡ some (more_digits (code c - b'0') rest)
    one c e f = rw (cons-append, nil-append, e, f) refl

natural-decimal_from :
    (fuel n : ℕ) (rest : String)
    → n < fuel
    → 0 < n
    → natural (decimal_from fuel n rest) ≡ some (more_digits n rest)
unfolding decimal_from
natural-decimal_from zero n rest h positive = absurd (omega arith)
natural-decimal_from (suc fuel) n rest h positive = elim (Bool-cases (ltb n 10)) [
  | inl small ↦ rw (decimal_from, small) (natural-digit n rest (ground arith) positive)
  | inr large ↦
      rw (decimal_from, large)
        (natural-decimal_from fuel (n / 10) (String.◌++◌ (digit (n % 10)) rest)
            (ground (arith, large)) (ground (arith, large))
          ∙ ap some (
              more_digits-digit (n % 10) (n / 10) rest (omega arith)
              ∙ ap (λ k. more_digits k rest) (omega arith)))
]

decimal_from-append :
    (fuel n : ℕ) (text after : String)
    → String.◌++◌ (decimal_from fuel n text) after ≡ decimal_from fuel n (String.◌++◌ text after)
unfolding decimal_from
decimal_from-append zero n text after = refl
decimal_from-append (suc fuel) n text after = elim (Bool-cases (ltb n 10)) [
  | inl small ↦ rw (decimal_from, small) (append_assoc (digit n) text after)
  | inr large ↦
      rw (decimal_from, large)
        (decimal_from-append fuel (n / 10) (String.◌++◌ (digit (n % 10)) text) after
          ∙ ap (decimal_from fuel (n / 10)) (append_assoc (digit (n % 10)) text after))
]

-- A number in front of a text that does not begin with a digit.
pub natural-decimal :
    (n : ℕ) (c : Char) (after : String)
    → between b'0' b'9' (code c) ≡ false
    → natural (String.◌++◌ (decimal n) (String.◌∷◌ c after)) ≡ some (n, String.◌∷◌ c after)
unfolding decimal decimal_from digit
natural-decimal n c after h = elim (Bool-cases (nat_eq n 0)) [
  | inl zeroed ↦
      let is_zero : n ≡ 0 = ground (arith, zeroed) in
      subst
        (λ k.
          natural (String.◌++◌ (decimal_from (suc k) k "") (String.◌∷◌ c after))
          ≡ some (k, String.◌∷◌ c after))
        (sym is_zero) (rw (cons-append, nil-append) refl)
  | inr more ↦
      ap natural (decimal_from-append (suc n) n "" (String.◌∷◌ c after))
      ∙ (ap (λ t. natural (decimal_from (suc n) n t)) (nil-append (String.◌∷◌ c after))
          ∙ (natural-decimal_from (suc n) n (String.◌∷◌ c after) (omega arith)
                (ground (arith, more))
              ∙ rw h refl))
]
