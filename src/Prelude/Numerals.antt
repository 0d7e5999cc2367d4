-- ===== src/Prelude/Numerals.antt =====
-- `int(text)`, for texts whose digits are those of ASCII.
use Prim.Native.Nat.{ℕ, zero, suc, ◌+◌, ◌-◌, ◌*◌, ◌/◌, ◌%◌, ◌<◌}
use Prim.Native.Char.{Char, code}
use Prim.Native.String
use Prim.Native.String.{String}
use mathlib.Core.Path.{◌≡◌, refl, ap, ◌∙◌}
use mathlib.Core.Logic.{inl, inr}
use mathlib.Core.Bool.{Bool, true, false, ◌&&◌}
use mathlib.Core.Option
use mathlib.Core.Option.{Option, none, some}
use native.Mathlib.Omega.{arith}
use text.Mathlib.TextLemmas.{cons-append, nil-append}
use job_processing_workflow.Prelude.Tests.{ltb, nat_eq, if◌then◌else◌, Bool-cases}
use job_processing_workflow.Prelude.Texts.{between, strip, rstrip, is_space}
use job_processing_workflow.Prelude.Decimal.{digit, decimal_from, decimal}

-- Digits, with an underscore between two of them where one wants it. `seen` tells whether a digit
-- stands before the text.
abbrev pub digits : (seen : Bool) → ℕ → String → Option ℕ
digits seen acc String.[] = if seen then some acc else none
digits seen acc (String.◌∷◌ c s) =
    let longer = digits true (acc * 10 + (code c - b'0')) s in
    let joined = digits false acc s in
    if between b'0' b'9' (code c)
    then longer
    else if nat_eq (code c) b'_' && seen
    then joined
    else none

-- A natural number, or the negative of one.
pub data Signed : Type 0 where
  plus minus : ℕ → Signed

abbrev signed : String → Option Signed
signed String.[] = none
signed (String.◌∷◌ c s) =
    let negative = Option.map minus (digits false 0 s) in
    let positive = Option.map plus (digits false 0 s) in
    if nat_eq (code c) b'-'
    then negative
    else if nat_eq (code c) b'+'
    then positive
    else Option.map plus (digits false 0 (String.◌∷◌ c s))

-- `int(text)`; nothing where it raises a ValueError.
unfoldable pub int : String → Option Signed
unfolding is_space
int text = signed (strip text)

-- A digit is one of ten.
pub below_ten {ℓ} :
    (P : ℕ → Type ℓ)
    → P 0
    → P 1
    → P 2
    → P 3
    → P 4
    → P 5
    → P 6
    → P 7
    → P 8
    → P 9
    → (d : ℕ) → d < 10
    → P d
below_ten P p0 p1 p2 p3 p4 p5 p6 p7 p8 p9 zero h = p0
below_ten P p0 p1 p2 p3 p4 p5 p6 p7 p8 p9 (suc zero) h = p1
below_ten P p0 p1 p2 p3 p4 p5 p6 p7 p8 p9 (suc (suc zero)) h = p2
below_ten P p0 p1 p2 p3 p4 p5 p6 p7 p8 p9 (suc (suc (suc zero))) h = p3
below_ten P p0 p1 p2 p3 p4 p5 p6 p7 p8 p9 (suc (suc (suc (suc zero)))) h = p4
below_ten P p0 p1 p2 p3 p4 p5 p6 p7 p8 p9 (suc (suc (suc (suc (suc zero))))) h = p5
below_ten P p0 p1 p2 p3 p4 p5 p6 p7 p8 p9 (suc (suc (suc (suc (suc (suc zero)))))) h = p6
below_ten P p0 p1 p2 p3 p4 p5 p6 p7 p8 p9 (suc (suc (suc (suc (suc (suc (suc zero))))))) h = p7
below_ten P p0 p1 p2 p3 p4 p5 p6 p7 p8 p9 (suc (suc (suc (suc (suc (suc (suc (suc zero)))))))) h =
    p8
below_ten P p0 p1 p2 p3 p4 p5 p6 p7 p8 p9 (suc (suc (suc (suc (suc (suc (suc (suc (suc zero)))))))))
      h =
    p9
below_ten P p0 p1 p2 p3 p4 p5 p6 p7 p8 p9
      (suc (suc (suc (suc (suc (suc (suc (suc (suc (suc d)))))))))) h =
    absurd (omega arith)

digits-cons :
    (c : Char) (acc : ℕ) (seen : Bool) (rest : String)
    → between b'0' b'9' (code c) ≡ true
    → digits seen acc (String.◌++◌ (String.◌∷◌ c String.[]) rest)
      ≡ digits true (acc * 10 + (code c - b'0')) rest
digits-cons c acc seen rest h = rw (cons-append, nil-append, h) refl

digits-digit :
    (d acc : ℕ) (seen : Bool) (rest : String)
    → d < 10
    → digits seen acc (String.◌++◌ (digit d) rest) ≡ digits true (acc * 10 + d) rest
unfolding digit
digits-digit d acc seen rest h =
    below_ten (λ k. digits seen acc (String.◌++◌ (digit k) rest) ≡ digits true (acc * 10 + k) rest)
      (digits-cons "0" acc seen rest refl) (digits-cons "1" acc seen rest refl)
      (digits-cons "2" acc seen rest refl) (digits-cons "3" acc seen rest refl)
      (digits-cons "4" acc seen rest refl) (digits-cons "5" acc seen rest refl)
      (digits-cons "6" acc seen rest refl) (digits-cons "7" acc seen rest refl)
      (digits-cons "8" acc seen rest refl) (digits-cons "9" acc seen rest refl) d h

digits-decimal_from :
    (fuel n : ℕ) (seen : Bool) (rest : String)
    → n < fuel
    → digits seen 0 (decimal_from fuel n rest) ≡ digits true n rest
unfolding decimal_from
digits-decimal_from zero n seen rest h = absurd (omega arith)
digits-decimal_from (suc fuel) n seen rest h = elim (Bool-cases (ltb n 10)) [
  | inl small ↦
      rw (decimal_from, small)
        (digits-digit n 0 seen rest (ground arith) ∙ ap (λ k. digits true k rest) (omega arith))
  | inr large ↦
      rw (decimal_from, large)
        (digits-decimal_from fuel (n / 10) seen (String.◌++◌ (digit (n % 10)) rest) (ground arith)
          ∙ (digits-digit (n % 10) (n / 10) true rest (omega arith)
              ∙ ap (λ k. digits true k rest) (omega arith)))
]

-- No character of the text is a space or a sign.
abbrev AllDigits : String → Type 0
AllDigits String.[] = Unit
AllDigits (String.◌∷◌ c s) = (between b'0' b'9' (code c) ≡ true) × AllDigits s

AllDigits-cons :
    (c : Char) (rest : String)
    → between b'0' b'9' (code c) ≡ true
    → AllDigits rest
    → AllDigits (String.◌++◌ (String.◌∷◌ c String.[]) rest)
AllDigits-cons c rest h more = rw (cons-append, nil-append) (h, more)

AllDigits-digit :
    (d : ℕ) (rest : String) → d < 10 → AllDigits rest → AllDigits (String.◌++◌ (digit d) rest)
unfolding digit
AllDigits-digit d rest below h =
    below_ten (λ k. AllDigits (String.◌++◌ (digit k) rest)) (AllDigits-cons "0" rest refl h)
      (AllDigits-cons "1" rest refl h) (AllDigits-cons "2" rest refl h)
      (AllDigits-cons "3" rest refl h) (AllDigits-cons "4" rest refl h)
      (AllDigits-cons "5" rest refl h) (AllDigits-cons "6" rest refl h)
      (AllDigits-cons "7" rest refl h) (AllDigits-cons "8" rest refl h)
      (AllDigits-cons "9" rest refl h) d below

decimal_from-AllDigits :
    (fuel n : ℕ) (rest : String) → AllDigits rest → AllDigits (decimal_from fuel n rest)
unfolding decimal_from
decimal_from-AllDigits zero n rest h = h
decimal_from-AllDigits (suc fuel) n rest h = elim (Bool-cases (ltb n 10)) [
  | inl small ↦ rw (decimal_from, small) (AllDigits-digit n rest (ground arith) h)
  | inr large ↦
      rw (decimal_from, large)
        (decimal_from-AllDigits fuel (n / 10) (String.◌++◌ (digit (n % 10)) rest)
          (AllDigits-digit (n % 10) rest (omega arith) h))
]

digit_no_space : (c : Char) → between b'0' b'9' (code c) ≡ true → is_space c ≡ false
unfolding is_space
digit_no_space c h = ground arith

rstrip_digits : (s : String) → AllDigits s → rstrip s ≡ s
rstrip_digits String.[] h = refl
rstrip_digits (String.◌∷◌ c s) h =
    rw (digit_no_space c h.0) (ap (λ t. String.◌∷◌ c t) (rstrip_digits s h.1))

strip_digits : (s : String) → AllDigits s → strip s ≡ s
strip_digits String.[] h = refl
strip_digits (String.◌∷◌ c s) h = rw (digit_no_space c h.0) (rstrip_digits (String.◌∷◌ c s) h)

signed-digits :
    (s : String) (n : ℕ) → AllDigits s → digits false 0 s ≡ some n → signed s ≡ some (plus n)
signed-digits String.[] n h e = cc
signed-digits (String.◌∷◌ c s) n h e = ground (arith, h.0, e)

-- A number that is printed in decimal digits is read as itself.
pub int-decimal : (n : ℕ) → int (decimal n) ≡ some (plus n)
unfolding int decimal
int-decimal n =
    let text = decimal_from (suc n) n "" in
    let all = decimal_from-AllDigits (suc n) n "" tt in
    ap signed (strip_digits text all)
    ∙ signed-digits text n all (digits-decimal_from (suc n) n false "" (omega arith))
