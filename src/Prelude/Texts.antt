-- ===== src/Prelude/Texts.antt =====
-- Methods of Python's `str`.
use Prim.Native.Nat.{ℕ, ◌+◌}
use Prim.Native.Char.{Char, code}
use Prim.Native.String
use Prim.Native.String.{String}
use mathlib.Core.Path.{◌≡◌, refl}
use mathlib.Core.Bool.{Bool, true, false, ◌&&◌, ◌||◌}
use mathlib.Core.List.{List, [], ◌∷◌}
use job_processing_workflow.Prelude.Tests.{leb, nat_eq, if◌then◌else◌, ◌==◌}

abbrev pub between : ℕ → ℕ → ℕ → Bool
between low high n = leb low n && leb n high

-- `c.isspace()`, as `strip()` and `split()` take it.
unfoldable pub is_space : Char → Bool
is_space c =
    between 9 13 (code c)
    || between 28 32 (code c)
    || nat_eq (code c) 133
    || nat_eq (code c) 160
    || nat_eq (code c) 5760
    || between 8192 8202 (code c)
    || nat_eq (code c) 8232
    || nat_eq (code c) 8233
    || nat_eq (code c) 8239
    || nat_eq (code c) 8287
    || nat_eq (code c) 12288

abbrev pub is_blank : String → Bool
is_blank String.[] = true
is_blank (String.◌∷◌ c s) = is_space c && is_blank s

abbrev pub lstrip : String → String
lstrip String.[] = String.[]
lstrip (String.◌∷◌ c s) = if is_space c then lstrip s else String.◌∷◌ c s

abbrev pub rstrip : String → String
rstrip String.[] = String.[]
rstrip (String.◌∷◌ c s) = if is_space c && is_blank s then String.[] else String.◌∷◌ c (rstrip s)

-- `s.strip()`
abbrev pub strip : String → String
strip s = rstrip (lstrip s)

-- `s.partition(" ")`, without the separator.
abbrev pub before_space : String → String
before_space String.[] = String.[]
before_space (String.◌∷◌ c s) =
    if nat_eq (code c) b' ' then String.[] else String.◌∷◌ c (before_space s)

abbrev pub after_space : String → String
after_space String.[] = String.[]
after_space (String.◌∷◌ c s) = if nat_eq (code c) b' ' then s else after_space s

-- The words of `s.split()`: `word` is the part of a word that has been read.
abbrev pub words_from : String → String → List String
words_from word String.[] = if word == "" then [] else word ∷ []
words_from word (String.◌∷◌ c s) =
    let closed = words_from "" s in
    let longer = words_from (String.◌++◌ word (String.◌∷◌ c String.[])) s in
    if is_space c then (if word == "" then closed else word ∷ closed) else longer

abbrev pub words : String → List String
words s = words_from "" s

-- The number of the character in lower case, for a letter of ASCII.
abbrev pub lower_code : Char → ℕ
lower_code c = if between b'A' b'Z' (code c) then code c + 32 else code c

-- `s.lower() == t` where `t` is in lower case, and `s` has no character beyond Latin-1: none of
-- these but the letters of ASCII has an ASCII letter as its lower case.
abbrev pub lower_is : String → String → Bool
lower_is String.[] String.[] = true
lower_is String.[] (String.◌∷◌ d t) = false
lower_is (String.◌∷◌ c s) String.[] = false
lower_is (String.◌∷◌ c s) (String.◌∷◌ d t) = nat_eq (lower_code c) (code d) && lower_is s t

test_words : words "jobs.read  jobs.write " ≡ "jobs.read" ∷ "jobs.write" ∷ []
unfolding is_space
test_words = refl

test_strip : strip " a b\t" ≡ "a b"
unfolding is_space
test_strip = refl

test_lower : lower_is "BeaRer" "bearer" ≡ true
test_lower = refl
