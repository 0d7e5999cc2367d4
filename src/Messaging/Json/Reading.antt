-- ===== src/Messaging/Json/Reading.antt =====
-- What common/messaging.py uses of `json.loads`: objects whose values are natural numbers and texts.
use job_processing_workflow.Prelude.{
  ℕ, zero, suc, ◌+◌, ◌-◌, String, Option, some, none, ◌||◌, nat_eq, ltb, if◌then◌else◌, between,
  Dict, [], insert, lookup, text_key,
}
use Prim.Native.Nat.{◌*◌}
use Prim.Native.Char.{Char, code}
use job_processing_workflow.Models.{Envelope}
use job_processing_workflow.Config.{◌>>=◌}
use job_processing_workflow.Messaging.Json.Characters.{chr, hex_value}

-- What a text in quotation marks goes on with: its end, a character, or something that is not
-- allowed. A lone surrogate is no character here.
pub data Scanned : Type 0 where
  ends : String → Scanned
  gives : Char → String → Scanned
  breaks : Scanned

abbrev pub sum4 : Option ℕ → Option ℕ → Option ℕ → Option ℕ → Option ℕ
sum4 (some w) (some x) (some y) (some z) = some (((w * 16 + x) * 16 + y) * 16 + z)
sum4 _ _ _ _ = none

abbrev pub hex4 : Char → Char → Char → Char → Option ℕ
hex4 a b c d = sum4 (hex_value a) (hex_value b) (hex_value c) (hex_value d)

abbrev pub character : Option Char → String → Scanned
character none s = breaks
character (some c) s = gives c s

-- The second half of a pair of surrogates; `high` is the first.
abbrev pub low_half : ℕ → Option ℕ → String → Scanned
low_half high none s = breaks
low_half high (some low) s =
    if between 56320 57343 low
    then character (chr (65536 + (high - 55296) * 1024 + (low - 56320))) s
    else breaks

abbrev pub paired : ℕ → String → Scanned
paired high
      (String.◌∷◌ q (String.◌∷◌ u (String.◌∷◌ a (String.◌∷◌ b (String.◌∷◌ c (String.◌∷◌ d s)))))) =
    if nat_eq (code q) b'\\'
    then (if nat_eq (code u) b'u' then low_half high (hex4 a b c d) s else breaks)
    else breaks
paired high _ = breaks

abbrev pub unit_of : Option ℕ → String → Scanned
unit_of none s = breaks
unit_of (some u) s = if between 55296 56319 u then paired u s else character (chr u) s

abbrev pub after_u : String → Scanned
after_u (String.◌∷◌ a (String.◌∷◌ b (String.◌∷◌ c (String.◌∷◌ d s)))) = unit_of (hex4 a b c d) s
after_u _ = breaks

-- What stands behind a backslash.
abbrev pub after_backslash : String → Scanned
after_backslash String.[] = breaks
after_backslash (String.◌∷◌ c s) =
    if nat_eq (code c) b'u'
    then after_u s
    else if nat_eq (code c) b'"' || nat_eq (code c) b'\\' || nat_eq (code c) b'/'
    then gives c s
    else if nat_eq (code c) b'n'
    then gives "\n" s
    else if nat_eq (code c) b'r'
    then gives "\r" s
    else if nat_eq (code c) b't'
    then gives "\t" s
    else if nat_eq (code c) b'f'
    then character (chr 12) s
    else if nat_eq (code c) b'b'
    then character (chr 8) s
    else breaks

abbrev pub scanned : String → Scanned
scanned String.[] = breaks
scanned (String.◌∷◌ c s) =
    if nat_eq (code c) b'"'
    then ends s
    else if nat_eq (code c) b'\\'
    then after_backslash s
    else if ltb (code c) 32
    then breaks
    else gives c s

abbrev pub put : Char → Option (String × String) → Option (String × String)
put c none = none
put c (some (t, s)) = some (String.◌∷◌ c t, s)

-- The rest of a text in quotation marks, and what follows it.
abbrev pub scan : ℕ → String → Option (String × String)
scan zero s = none
scan (suc fuel) s = elim (scanned s) [
  | ends after ↦ some (String.[], after)
  | gives c after ↦ put c (scan fuel after)
  | breaks ↦ none
]

-- `\d*`, behind the digits of a number.
abbrev pub more_digits : ℕ → String → ℕ × String
more_digits n String.[] = (n, String.[])
more_digits n (String.◌∷◌ c s) =
    let more = more_digits (n * 10 + (code c - b'0')) s in
    if between b'0' b'9' (code c) then more else (n, String.◌∷◌ c s)

-- `0|[1-9]\d*`
abbrev pub natural : String → Option (ℕ × String)
natural String.[] = none
natural (String.◌∷◌ c s) =
    if nat_eq (code c) b'0'
    then some (0, s)
    else if between b'1' b'9' (code c)
    then some (more_digits (code c - b'0') s)
    else none

-- `[ \t\n\r]*`
abbrev pub skip_space : String → String
skip_space String.[] = String.[]
skip_space (String.◌∷◌ c s) =
    let rest = skip_space s in
    if nat_eq (code c) 32 || nat_eq (code c) 9 || nat_eq (code c) 10 || nat_eq (code c) 13
    then rest
    else String.◌∷◌ c s

abbrev pub first : ℕ → String → Option String
first n String.[] = none
first n (String.◌∷◌ c s) = if nat_eq (code c) n then some s else none

-- What follows the character, before which there may be space.
abbrev pub expect : ℕ → String → Option String
expect n s = first n (skip_space s)

-- A value that an object holds here.
pub data Scalar : Type 0 where
  number : ℕ → Scalar
  chars : String → Scalar

abbrev pub as_number : Option (ℕ × String) → Option (Scalar × String)
as_number none = none
as_number (some (n, s)) = some (number n, s)

abbrev pub as_chars : Option (String × String) → Option (Scalar × String)
as_chars none = none
as_chars (some (t, s)) = some (chars t, s)

-- `limit` bounds how many characters a text has.
abbrev pub scalar : (limit : ℕ) → String → Option (Scalar × String)
scalar limit String.[] = none
scalar limit (String.◌∷◌ c s) =
    if nat_eq (code c) b'"' then as_chars (scan limit s) else as_number (natural (String.◌∷◌ c s))

-- A key, and its value.
abbrev pub member : (limit : ℕ) → String → Option ((String × Scalar) × String)
member limit s = do
  s1 ← expect b'"' s
  key ← scan limit s1
  s2 ← expect b':' key.1
  value ← scalar limit (skip_space s2)
  some ((key.0, value.0), value.1)

-- The members of an object up to its end. The last of equal keys counts.
abbrev pub members :
    (limit fuel : ℕ) → Dict String Scalar → String → Option (Dict String Scalar × String)
members limit zero d s = none
members limit (suc fuel) d s = elim (member limit s) [
  | none ↦ none
  | some (m, rest) ↦ elim (expect b'}' rest) [
    | some after ↦ some (insert m.0 m.1 d, after)
    | none ↦ elim (expect b',' rest) [
      | some more ↦ members limit fuel (insert m.0 m.1 d) more
      | none ↦ none
    ]
  ]
]

-- `envelope["job_id"]` and `envelope["job_type"]`
abbrev pub envelope_of : Dict String Scalar → Option Envelope
envelope_of d = elim (lookup "job_id" d) [
  | some (number job_id) ↦ elim (lookup "job_type" d) [
    | some (chars job_type) ↦ some (record { job_id = job_id; job_type = job_type })
    | _ ↦ none
  ]
  | _ ↦ none
]

abbrev pub at_end : String → Option Envelope → Option Envelope
at_end String.[] e = e
at_end (String.◌∷◌ c s) e = none

-- How many characters a text has.
abbrev pub size : String → ℕ
size String.[] = 0
size (String.◌∷◌ c s) = suc (size s)

-- No text in `s`, and no number of members, is larger than `s` itself.
abbrev pub flat : String → Option Envelope
flat s = do
  inside ← expect b'{' s
  read ← members (size s) (size s) [] inside
  at_end (skip_space read.1) (envelope_of read.0)

-- `json.loads(text)`; `other` is what it gives for a text of another form.
unfoldable pub loads : (other : String → Option Envelope) → String → Option Envelope
unfolding hex_value
loads other s = elim (flat s) [ some e ↦ some e | none ↦ other s ]
