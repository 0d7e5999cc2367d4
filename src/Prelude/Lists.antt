-- ===== src/Prelude/Lists.antt =====
-- Lists measured by native numbers, Python's `any`, and sets of numbers as lists.
use Prim.Native.Nat.{ℕ, zero, suc, ◌+◌, ◌≤◌, ◌<◌}
use mathlib.Core.Path.{◌≡◌, refl}
use mathlib.Core.Bool.{Bool, false, ◌||◌, not, ◌&&◌}
use mathlib.Core.List.{List, [], ◌∷◌, ◌++◌}
use native.Mathlib.Omega.{arith}
use job_processing_workflow.Prelude.Tests.{if◌then◌else◌, nat_eq, nat_eq_iff}

module _ {ℓ} {A : Type ℓ} where
  abbrev pub length : List A → ℕ
  length [] = 0
  length (x ∷ xs) = suc (length xs)

  abbrev pub take : ℕ → List A → List A
  take zero xs = []
  take (suc n) [] = []
  take (suc n) (x ∷ xs) = x ∷ take n xs

  -- `any(p(x) for x in xs)`
  abbrev pub any : (A → Bool) → List A → Bool
  any p [] = false
  any p (x ∷ xs) = p x || any p xs

  -- `[x for x in xs if p(x)]`
  abbrev pub select : (A → Bool) → List A → List A
  select p [] = []
  select p (x ∷ xs) = if p x then x ∷ select p xs else select p xs

  abbrev pub All {κ} : (A → Type κ) → List A → Type κ
  All P [] = Unit
  All P (x ∷ xs) = P x × All P xs

  pub length-append : (xs ys : List A) → length (xs ++ ys) ≡ length xs + length ys
  length-append [] ys = omega arith
  length-append (x ∷ xs) ys = omega (arith, length-append xs ys)

  pub take_all : (n : ℕ) (xs : List A) → length xs ≤ n → take n xs ≡ xs
  take_all zero [] h = refl
  take_all zero (x ∷ xs) h = absurd (omega arith)
  take_all (suc n) [] h = refl
  take_all (suc n) (x ∷ xs) h = ground (arith, take_all n xs)

  pub take_short : (n : ℕ) (xs : List A) → length (take n xs) < n → take n xs ≡ xs
  take_short zero xs h = absurd (omega arith)
  take_short (suc n) [] h = refl
  take_short (suc n) (x ∷ xs) h = ground (arith, take_short n xs)

  pub length-take-le : (n : ℕ) (xs : List A) → length (take n xs) ≤ n
  length-take-le zero xs = omega arith
  length-take-le (suc n) [] = omega arith
  length-take-le (suc n) (x ∷ xs) = omega (arith, length-take-le n xs)

pub All-imp :
    {A : Type 0} (P Q : A → Type 0) → ((x : A) → P x → Q x) → (l : List A) → All P l → All Q l
All-imp P Q f [] h = tt
All-imp P Q f (x ∷ l) h = (f x h.0, All-imp P Q f l h.1)

-- A set of ids.
abbrev pub contains : ℕ → List ℕ → Bool
contains a [] = false
contains a (x ∷ xs) = nat_eq x a || contains a xs

-- `set.add`
unfoldable pub add : ℕ → List ℕ → List ℕ
add a xs = if contains a xs then xs else a ∷ xs

-- `set.discard`
unfoldable pub discard : ℕ → List ℕ → List ℕ
discard a [] = []
discard a (x ∷ xs) = if nat_eq x a then discard a xs else x ∷ discard a xs

pub contains-add : (a b : ℕ) (xs : List ℕ) → contains b (add a xs) ≡ (nat_eq a b || contains b xs)
unfolding add
contains-add a b xs = ground (arith, nat_eq_iff a b)

pub contains-discard :
    (a b : ℕ) (xs : List ℕ) → contains b (discard a xs) ≡ (not (nat_eq a b) && contains b xs)
unfolding discard
contains-discard a b [] = ground arith
contains-discard a b (x ∷ xs) = ground (arith, contains-discard a b xs)
