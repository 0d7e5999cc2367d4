-- ===== src/Messaging/Json/Texts.antt =====
-- Texts in quotation marks, as the module json writes and then reads them.
use job_processing_workflow.Prelude.{
  ℕ, zero, suc, ◌+◌, ◌-◌, ◌<◌, ◌≤◌, ◌≡◌, inl, inr, refl, ap, sym, subst, ◌∙◌, false, true, String,
  some, none, nat_eq, ltb, ◌||◌, between, arith, Bool-cases,
}
use Prim.Native.Nat.{◌*◌, ◌/◌, ◌%◌}
use Prim.Native.Char.{Char, char, code}
use text.Mathlib.TextEquality.{Char-path}
use job_processing_workflow.Messaging.Json.Writing.{unicode, escape, escaped}
use job_processing_workflow.Messaging.Json.Reading.{
  Scanned, ends, gives, breaks, hex4, unit_of, scanned, put, scan, size, character,
}
use job_processing_workflow.Messaging.Json.Characters.{
  chr, chr-code, code-scalar, hex_digit, hex_value-hex_digit,
}

hex4-digits :
    (n : ℕ)
    → n < 65536
    → hex4
        (hex_digit (n / 4096))
        (hex_digit (n / 256 % 16))
        (hex_digit (n / 16 % 16))
        (hex_digit (n % 16))
      ≡ some n
hex4-digits n h =
    rw
      (
        hex_value-hex_digit (n / 4096) (omega arith),
        hex_value-hex_digit (n / 256 % 16) (omega arith),
        hex_value-hex_digit (n / 16 % 16) (omega arith),
        hex_value-hex_digit (n % 16) (omega arith),
      )
      (ap some (omega arith))

scanned-unicode :
    (n : ℕ) (after : String) → n < 65536 → scanned (unicode n after) ≡ unit_of (some n) after
scanned-unicode n after h = rw (hex4-digits n h) refl

character-code :
    (c : Char) (n : ℕ) (after : String) → n ≡ code c → character (chr n) after ≡ gives c after
character-code c n after e =
    ap (λ k. character (chr k) after) e ∙ ap (λ r. character r after) (chr-code c)

code_bound : (c : Char) → code c < 1114112
code_bound c = elim (code-scalar c) [ inl low ↦ omega (arith, low) | inr (_, below) ↦ below ]

scanned_unit :
    (c : Char) (after : String) → code c < 65536 → scanned (unicode (code c) after) ≡ gives c after
scanned_unit c after h =
    let plain : between 55296 56319 (code c) ≡ false = elim (code-scalar c) [
      | inl low ↦ ground (arith, low)
      | inr (above, _) ↦ ground (arith, above)
    ] in
    scanned-unicode (code c) after h ∙ rw plain (character-code c (code c) after refl)

scanned_pair :
    (c : Char) (after : String)
    → 65536 ≤ code c
    → code c < 1114112
    → scanned (
        unicode (55296 + (code c - 65536) / 1024) (unicode (56320 + (code c - 65536) % 1024) after))
      ≡ gives c after
scanned_pair c after wide valid =
    let high = 55296 + (code c - 65536) / 1024 in
    let low = 56320 + (code c - 65536) % 1024 in
    let is_high : between 55296 56319 high ≡ true = ground arith in
    let is_low : between 56320 57343 low ≡ true = ground arith in
    scanned-unicode high (unicode low after) (omega arith)
    ∙ rw (is_high, hex4-digits low (omega arith), is_low)
        (character-code c (65536 + (high - 55296) * 1024 + (low - 56320)) after (omega arith))

-- A statement about a character, where it is a certain one and where it is not.
by_char : (c d : Char) (P : Char → Type 0) → P d → (nat_eq (code c) (code d) ≡ false → P c) → P c
by_char c d P same other = elim (Bool-cases (nat_eq (code c) (code d))) [
  | inl e ↦ subst P (sym (Char-path c d (ground (arith, e)))) same
  | inr n ↦ other n
]

-- What a character has been written as is read as the character.
scanned-escape : (c : Char) (after : String) → scanned (escape c after) ≡ gives c after
unfolding escape
scanned-escape c after = by_char c "\"" Reads refl (λ n1. by_char c "\\" Reads refl (λ n2.
    by_char c "\n" Reads refl (λ n3. by_char c "\r" Reads refl (λ n4.
      by_char c "\t" Reads refl (λ n5. by_char c (char 12 tt) Reads refl (λ n6.
        by_char c (char 8 tt) Reads refl (λ n7.
          elim (Bool-cases (ltb (code c) 32 || ltb 126 (code c))) [
            | inr plain ↦ rw (n1, n2, n3, n4, n5, n6, n7, plain) (ground (arith, n1, n2, plain))
            | inl far ↦ elim (Bool-cases (ltb (code c) 65536)) [
              | inl narrow ↦
                  rw (n1, n2, n3, n4, n5, n6, n7, far, narrow)
                    (scanned_unit c after (ground (arith, narrow)))
              | inr wide ↦
                  rw (n1, n2, n3, n4, n5, n6, n7, far, wide)
                    (scanned_pair c after (ground (arith, wide)) (code_bound c))
            ]
          ])))))))
  where
    Reads : Char → Type 0
    Reads d = scanned (escape d after) ≡ gives d after

escape-size : (c : Char) (after : String) → suc (size after) ≤ size (escape c after)
unfolding escape
escape-size c after = ground arith

pub escaped-size : (t after : String) → size t + size after ≤ size (escaped t after)
escaped-size String.[] after = omega arith
escaped-size (String.◌∷◌ c t) after =
    omega (arith, escaped-size t after, escape-size c (escaped t after))

scan_gives :
    (fuel : ℕ) (c : Char) (s after : String)
    → scanned s ≡ gives c after
    → scan (suc fuel) s ≡ put c (scan fuel after)
scan_gives fuel c s after e =
    ap
      (λ (r : Scanned). elim r [
        | ends rest ↦ some (String.[], rest)
        | gives d rest ↦ put d (scan fuel rest)
        | breaks ↦ none
      ])
      e

-- A text that was written in quotation marks is read as itself, up to the mark that ends it.
pub scan-escaped :
    (fuel : ℕ) (t after : String)
    → size t < fuel
    → scan fuel (escaped t (String.◌∷◌ "\"" after)) ≡ some (t, after)
scan-escaped zero t after h = absurd (omega arith)
scan-escaped (suc fuel) String.[] after h = refl
scan-escaped (suc fuel) (String.◌∷◌ c t) after h =
    let rest = escaped t (String.◌∷◌ "\"" after) in
    scan_gives fuel c (escape c rest) rest (scanned-escape c rest)
    ∙ ap (put c) (scan-escaped fuel t after (omega arith))
