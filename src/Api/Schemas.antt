-- ===== src/Api/Schemas.antt =====
-- handlerAPI/schemas.py: what a request to create a job must hold, and what the answers hold.
use job_processing_workflow.Prelude.{
  ℕ, zero, suc, ◌≤◌, ◌≡◌, ◌↔◌, ◌⊎◌, refl, sym, String, Bool, true, false, ◌||◌, ◌&&◌, Option,
  nat_eq, between, arith, Bool-cases, inl, inr, ◌∙◌, ap,
}
use Prim.Native.Char.{Char, code}
use Prim.Native.String
use Prim.Native.String.{count}
use text.Mathlib.TextEquality.{Char-path}
use text.Mathlib.TextLemmas.{cons-append, nil-append, length-cons}
use job_processing_workflow.Models.{JobStatus, Payload, Time}

-- [a-z]
abbrev pub is_lower : Char → Bool
is_lower c = between b'a' b'z' (code c)

-- [a-z0-9_.-]
unfoldable pub is_type_char : Char → Bool
is_type_char c =
    is_lower c
    || between b'0' b'9' (code c)
    || nat_eq (code c) b'_'
    || nat_eq (code c) b'.'
    || nat_eq (code c) b'-'

abbrev is_end : Char → String → Bool
is_end c String.[] = nat_eq (code c) 10
is_end c (String.◌∷◌ d s) = false

-- `[a-z0-9_.-]{0,n}$`, from here. In Python, `$` matches at the end, and before a newline there.
abbrev pub match_rest : ℕ → String → Bool
match_rest n String.[] = true
match_rest zero (String.◌∷◌ c s) = is_end c s
match_rest (suc n) (String.◌∷◌ c s) = is_end c s || (is_type_char c && match_rest n s)

-- `_JOB_TYPE_RE.match(v)`
unfoldable pub valid_type : String → Bool
valid_type String.[] = false
valid_type (String.◌∷◌ c s) = is_lower c && match_rest 63 s

pub record CreateJobRequest : Type 0 where
  pub job_type : String
  pub payload : Option Payload

pub record CreateJobResponse : Type 0 where
  pub job_id : ℕ
  pub status : String

pub record CreatedBy : Type 0 where
  pub sub : Option String
  pub type : Option String
  pub client_id : Option String

pub record JobResponse : Type 0 where
  pub id : ℕ
  pub job_type : String
  pub status : JobStatus
  pub input_payload : Payload
  pub payload : Payload
  pub attempts : ℕ
  pub created_at : Time
  pub updated_at : Time
  pub created_by : CreatedBy

-- Every character of the text may stand in a type.
abbrev pub all_type_chars : String → Bool
all_type_chars String.[] = true
all_type_chars (String.◌∷◌ c s) = is_type_char c && all_type_chars s

abbrev pub starts_lower : String → Bool
starts_lower String.[] = false
starts_lower (String.◌∷◌ c s) = is_lower c

-- "lowercase alnum with _.- (1-64 chars, leading letter)"
abbrev pub IsJobType : String → Type 0
IsJobType t = (starts_lower t ≡ true) × (all_type_chars t ≡ true) × (count t ≤ 64)

abbrev newline : String
newline = "\n"

is_end→ : (c : Char) (s : String) → is_end c s ≡ true → String.◌∷◌ c s ≡ newline
is_end→ c String.[] h = ap (λ d. String.◌∷◌ d String.[]) (Char-path c "\n" (ground arith))
is_end→ c (String.◌∷◌ d s) h = cc

-- What the rest of the expression takes: characters of types, and maybe a newline.
abbrev Takes : ℕ → String → Type 0
Takes n s =
    (t : String) × ((s ≡ t) ⊎ (s ≡ String.◌++◌ t newline))
    × (all_type_chars t ≡ true)
    × (count t ≤ n)

is_end-Takes : (n : ℕ) (c : Char) (s : String) → is_end c s ≡ true → Takes n (String.◌∷◌ c s)
is_end-Takes n c s h = ("", inr (is_end→ c s h ∙ sym (nil-append newline)), refl, ground arith)

all_cons :
    (c : Char) (t : String)
    → is_type_char c ≡ true
    → all_type_chars t ≡ true
    → all_type_chars (String.◌∷◌ c t) ≡ true
all_cons c t h chars = ground arith

count_cons : (n : ℕ) (c : Char) (t : String) → count t ≤ n → count (String.◌∷◌ c t) ≤ suc n
count_cons n c t short = rw (length-cons c t) (ground arith)

form_cons :
    (c : Char) (s t : String)
    → (s ≡ t) ⊎ (s ≡ String.◌++◌ t newline)
    → (String.◌∷◌ c s ≡ String.◌∷◌ c t) ⊎ (String.◌∷◌ c s ≡ String.◌++◌ (String.◌∷◌ c t) newline)
form_cons c s t (inl same) = inl (ap (λ u. String.◌∷◌ c u) same)
form_cons c s t (inr more) = inr (ap (λ u. String.◌∷◌ c u) more ∙ sym (cons-append c t newline))

Takes-cons :
    (n : ℕ) (c : Char) (s : String)
    → is_type_char c ≡ true
    → Takes n s
    → Takes (suc n) (String.◌∷◌ c s)
Takes-cons n c s h (t, form, chars, short) =
    (String.◌∷◌ c t, form_cons c s t form, all_cons c t h chars, count_cons n c t short)

rest→ : (n : ℕ) (s : String) → match_rest n s ≡ true → Takes n s
rest→ n String.[] h = ("", inl refl, refl, ground arith)
rest→ zero (String.◌∷◌ c s) h = is_end-Takes 0 c s h
rest→ (suc n) (String.◌∷◌ c s) h = elim (Bool-cases (is_end c s)) [
  | inl ends ↦ is_end-Takes (suc n) c s ends
  | inr goes ↦ Takes-cons n c s (ground arith) (rest→ n s (ground arith))
]

rest← : (n : ℕ) (t : String) → all_type_chars t ≡ true → count t ≤ n → match_rest n t ≡ true
rest← n String.[] h short = refl
rest← zero (String.◌∷◌ c t) h short = absurd (omega (arith, length-cons c t, short))
rest← (suc n) (String.◌∷◌ c t) h short =
    let shorter : count t ≤ n = omega (arith, length-cons c t, short) in
    ground (arith, rest← n t, shorter)

rest_newline← :
    (n : ℕ) (t : String)
    → all_type_chars t ≡ true
    → count t ≤ n
    → match_rest n (String.◌++◌ t newline) ≡ true
rest_newline← zero String.[] h short = refl
rest_newline← (suc n) String.[] h short = refl
rest_newline← zero (String.◌∷◌ c t) h short = absurd (omega (arith, length-cons c t, short))
rest_newline← (suc n) (String.◌∷◌ c t) h short =
    let shorter : count t ≤ n = omega (arith, length-cons c t, short) in
    rw (cons-append c t newline) (ground (arith, rest_newline← n t, shorter))

lower_is_char : (c : Char) → is_lower c ≡ true → is_type_char c ≡ true
unfolding is_type_char
lower_is_char c h = ground (arith, h)

accepted :
    (c : Char) (s : String)
    → is_lower c ≡ true
    → Takes 63 s
    → (t : String) × IsJobType t × ((String.◌∷◌ c s ≡ t) ⊎ (String.◌∷◌ c s ≡ String.◌++◌ t newline))
accepted c s lower (t, form, chars, short) = (
  String.◌∷◌ c t,
  (lower, all_cons c t (lower_is_char c lower) chars, count_cons 63 c t short),
  form_cons c s t form,
)

-- A type is accepted exactly when it is one as the message says, or such a one followed by a
-- newline.
pub valid_type_iff :
    (s : String)
    → (valid_type s ≡ true) ↔ ((t : String) × IsJobType t × ((s ≡ t) ⊎ (s ≡ String.◌++◌ t newline)))
unfolding valid_type
valid_type_iff s = (
  forth s,
  λ (t, type, form). elim form [
    | inl same ↦ rw same (back t type)
    | inr more ↦ rw more (back_newline t type)
  ],
)
  where
    forth :
        (s : String)
        → valid_type s ≡ true
        → (t : String) × IsJobType t × ((s ≡ t) ⊎ (s ≡ String.◌++◌ t newline))
    forth String.[] h = cc
    forth (String.◌∷◌ c s) h = accepted c s (ground arith) (rest→ 63 s (ground arith))

    back : (t : String) → IsJobType t → valid_type t ≡ true
    back String.[] h = cc
    back (String.◌∷◌ c t) (lower, chars, short) =
        let shorter : count t ≤ 63 = omega (arith, length-cons c t, short) in
        ground (arith, rest← 63 t, shorter)

    back_newline : (t : String) → IsJobType t → valid_type (String.◌++◌ t newline) ≡ true
    back_newline String.[] h = cc
    back_newline (String.◌∷◌ c t) (lower, chars, short) =
        let shorter : count t ≤ 63 = omega (arith, length-cons c t, short) in
        rw (cons-append c t newline) (ground (arith, rest_newline← 63 t, shorter))
