-- ===== src/Messaging/Json/Characters.antt =====
-- Characters by their numbers, and hexadecimal digits, as the module json reads and writes them.
use job_processing_workflow.Prelude.{
  ℕ, zero, suc, ◌-◌, ◌<◌, ◌≡◌, ◌⊎◌, inl, inr, refl, ap, Option, some, none, nat_eq, if◌then◌else◌,
  between, arith,
}
use Prim.Native.Nat.{Ordering, compare}
use Prim.Native.Char.{Char, char, code, IsScalar}
use text.Mathlib.TextEquality.{Char-path}

-- The character, by where its number lies; nothing for a surrogate.
abbrev chr_by :
    (n : ℕ) (o p q : Ordering)
    → compare n 55296 ≡ o
    → compare 57343 n ≡ p
    → compare n 1114112 ≡ q
    → Option Char
chr_by n Ordering.lt p q e f g = some (char n (rw e tt))
chr_by n Ordering.eq Ordering.lt Ordering.lt e f g = some (char n (rw (e, f, g) tt))
chr_by n Ordering.gt Ordering.lt Ordering.lt e f g = some (char n (rw (e, f, g) tt))
chr_by n _ _ _ e f g = none

-- `chr(n)`
abbrev pub chr : ℕ → Option Char
chr n = chr_by n (compare n 55296) (compare 57343 n) (compare n 1114112) refl refl refl

-- A number that is one of a character lies below the surrogates, or above them.
below_or_above :
    (n : ℕ) (o p q : Ordering)
    → compare n 55296 ≡ o
    → compare 57343 n ≡ p
    → compare n 1114112 ≡ q
    → IsScalar n
    → (o ≡ Ordering.lt) ⊎ ((p ≡ Ordering.lt) × (q ≡ Ordering.lt))
below_or_above n Ordering.lt p q e f g s = inl refl
below_or_above n Ordering.eq Ordering.lt Ordering.lt e f g s = inr (refl, refl)
below_or_above n Ordering.gt Ordering.lt Ordering.lt e f g s = inr (refl, refl)
below_or_above n Ordering.eq Ordering.lt Ordering.eq e f g s =
    let no : IsScalar n → ⊥ = rw (e, f, g) (λ x. x) in absurd (no s)
below_or_above n Ordering.eq Ordering.lt Ordering.gt e f g s =
    let no : IsScalar n → ⊥ = rw (e, f, g) (λ x. x) in absurd (no s)
below_or_above n Ordering.gt Ordering.lt Ordering.eq e f g s =
    let no : IsScalar n → ⊥ = rw (e, f, g) (λ x. x) in absurd (no s)
below_or_above n Ordering.gt Ordering.lt Ordering.gt e f g s =
    let no : IsScalar n → ⊥ = rw (e, f, g) (λ x. x) in absurd (no s)
below_or_above n Ordering.eq Ordering.eq q e f g s =
    let no : IsScalar n → ⊥ = rw (e, f) (λ x. x) in absurd (no s)
below_or_above n Ordering.eq Ordering.gt q e f g s =
    let no : IsScalar n → ⊥ = rw (e, f) (λ x. x) in absurd (no s)
below_or_above n Ordering.gt Ordering.eq q e f g s =
    let no : IsScalar n → ⊥ = rw (e, f) (λ x. x) in absurd (no s)
below_or_above n Ordering.gt Ordering.gt q e f g s =
    let no : IsScalar n → ⊥ = rw (e, f) (λ x. x) in absurd (no s)

pub code-scalar : (c : Char) → (code c < 55296) ⊎ ((57343 < code c) × (code c < 1114112))
code-scalar (char n s) = elim (below_or_above n _ _ _ refl refl refl s) [
  | inl low ↦ inl (ground (arith, low))
  | inr (above, below) ↦ inr (ground (arith, above), ground (arith, below))
]

chr_by-code :
    (n : ℕ) (s : IsScalar n) (o p q : Ordering) (e : compare n 55296 ≡ o) (f : compare 57343 n ≡ p)
    (g : compare n 1114112 ≡ q)
    → (o ≡ Ordering.lt) ⊎ ((p ≡ Ordering.lt) × (q ≡ Ordering.lt))
    → chr_by n o p q e f g ≡ some (char n s)
chr_by-code n s Ordering.lt p q e f g h = ap some (Char-path _ _ refl)
chr_by-code n s Ordering.eq Ordering.lt Ordering.lt e f g h = ap some (Char-path _ _ refl)
chr_by-code n s Ordering.gt Ordering.lt Ordering.lt e f g h = ap some (Char-path _ _ refl)
chr_by-code n s Ordering.eq Ordering.lt Ordering.eq e f g h = absurd (ground (arith, h))
chr_by-code n s Ordering.eq Ordering.lt Ordering.gt e f g h = absurd (ground (arith, h))
chr_by-code n s Ordering.gt Ordering.lt Ordering.eq e f g h = absurd (ground (arith, h))
chr_by-code n s Ordering.gt Ordering.lt Ordering.gt e f g h = absurd (ground (arith, h))
chr_by-code n s Ordering.eq Ordering.eq q e f g h = absurd (ground (arith, h))
chr_by-code n s Ordering.eq Ordering.gt q e f g h = absurd (ground (arith, h))
chr_by-code n s Ordering.gt Ordering.eq q e f g h = absurd (ground (arith, h))
chr_by-code n s Ordering.gt Ordering.gt q e f g h = absurd (ground (arith, h))

pub chr-code : (c : Char) → chr (code c) ≡ some c
chr-code (char n s) = chr_by-code n s _ _ _ refl refl refl (below_or_above n _ _ _ refl refl refl s)

unfoldable pub hex_digit : ℕ → Char
hex_digit n =
    if nat_eq n 0
    then "0"
    else if nat_eq n 1
    then "1"
    else if nat_eq n 2
    then "2"
    else if nat_eq n 3
    then "3"
    else if nat_eq n 4
    then "4"
    else if nat_eq n 5
    then "5"
    else if nat_eq n 6
    then "6"
    else if nat_eq n 7
    then "7"
    else if nat_eq n 8
    then "8"
    else if nat_eq n 9
    then "9"
    else if nat_eq n 10
    then "a"
    else if nat_eq n 11
    then "b"
    else if nat_eq n 12
    then "c"
    else if nat_eq n 13
    then "d"
    else if nat_eq n 14
    then "e"
    else "f"

unfoldable pub hex_value : Char → Option ℕ
hex_value c =
    if between b'0' b'9' (code c)
    then some (code c - b'0')
    else if between b'a' b'f' (code c)
    then some (code c - 87)
    else if between b'A' b'F' (code c)
    then some (code c - 55)
    else none

pub hex_value-hex_digit : (n : ℕ) → n < 16 → hex_value (hex_digit n) ≡ some n
unfolding hex_value hex_digit
hex_value-hex_digit zero h = refl
hex_value-hex_digit (suc zero) h = refl
hex_value-hex_digit (suc (suc zero)) h = refl
hex_value-hex_digit (suc (suc (suc zero))) h = refl
hex_value-hex_digit (suc (suc (suc (suc zero)))) h = refl
hex_value-hex_digit (suc (suc (suc (suc (suc zero))))) h = refl
hex_value-hex_digit (suc (suc (suc (suc (suc (suc zero)))))) h = refl
hex_value-hex_digit (suc (suc (suc (suc (suc (suc (suc zero))))))) h = refl
hex_value-hex_digit (suc (suc (suc (suc (suc (suc (suc (suc zero)))))))) h = refl
hex_value-hex_digit (suc (suc (suc (suc (suc (suc (suc (suc (suc zero))))))))) h = refl
hex_value-hex_digit (suc (suc (suc (suc (suc (suc (suc (suc (suc (suc zero)))))))))) h = refl
hex_value-hex_digit (suc (suc (suc (suc (suc (suc (suc (suc (suc (suc (suc zero))))))))))) h = refl
hex_value-hex_digit (suc (suc (suc (suc (suc (suc (suc (suc (suc (suc (suc (suc zero)))))))))))) h =
    refl
hex_value-hex_digit
      (suc (suc (suc (suc (suc (suc (suc (suc (suc (suc (suc (suc (suc zero))))))))))))) h =
    refl
hex_value-hex_digit
      (suc (suc (suc (suc (suc (suc (suc (suc (suc (suc (suc (suc (suc (suc zero)))))))))))))) h =
    refl
hex_value-hex_digit
      (suc (suc (suc (suc (suc (suc (suc (suc (suc (suc (suc (suc (suc (suc (suc zero)))))))))))))))
      h =
    refl
hex_value-hex_digit
      (suc
        (suc (suc (suc (suc (suc (suc (suc (suc (suc (suc (suc (suc (suc (suc (suc n))))))))))))))))
      h =
    absurd (omega arith)
