-- ===== src/Messaging/Json/Writing.antt =====
-- What common/messaging.py uses of `json.dumps`: the text of an envelope.
use job_processing_workflow.Prelude.{
  ℕ, ◌+◌, ◌-◌, String, ◌||◌, nat_eq, ltb, if◌then◌else◌, decimal, text_key,
}
use Prim.Native.Nat.{◌/◌, ◌%◌}
use Prim.Native.Char.{Char, code}
use Prim.Native.String
use job_processing_workflow.Models.{Envelope}
use job_processing_workflow.Messaging.Json.Characters.{hex_digit}

-- `\uxxxx`, in front of a text.
abbrev pub unicode : ℕ → String → String
unicode n after = String.◌∷◌ "\\" (
    String.◌∷◌ "u" (
      String.◌∷◌ (hex_digit (n / 4096)) (
        String.◌∷◌ (hex_digit (n / 256 % 16))
          (String.◌∷◌ (hex_digit (n / 16 % 16)) (String.◌∷◌ (hex_digit (n % 16)) after)))))

abbrev pub short : Char → String → String
short c after = String.◌∷◌ "\\" (String.◌∷◌ c after)

-- A character as `json.dumps` writes it, in front of a text.
unfoldable pub escape : Char → String → String
escape c after =
    if nat_eq (code c) b'"'
    then short "\"" after
    else if nat_eq (code c) b'\\'
    then short "\\" after
    else if nat_eq (code c) 10
    then short "n" after
    else if nat_eq (code c) 13
    then short "r" after
    else if nat_eq (code c) 9
    then short "t" after
    else if nat_eq (code c) 12
    then short "f" after
    else if nat_eq (code c) 8
    then short "b" after
    else if ltb (code c) 32 || ltb 126 (code c)
    then (if ltb (code c) 65536
        then unicode (code c) after
        else unicode (55296 + (code c - 65536) / 1024)
            (unicode (56320 + (code c - 65536) % 1024) after))
    else String.◌∷◌ c after

abbrev pub escaped : String → String → String
escaped String.[] after = after
escaped (String.◌∷◌ c s) after = escape c (escaped s after)

-- A text in quotation marks, in front of another.
abbrev pub quoted : String → String → String
quoted t after = String.◌∷◌ "\"" (escaped t (String.◌∷◌ "\"" after))

-- `": "`, in front of a text, and `", "`.
abbrev pub colon : String → String
colon after = String.◌∷◌ ":" (String.◌∷◌ " " after)

abbrev pub comma : String → String
comma after = String.◌∷◌ "," (String.◌∷◌ " " after)

-- `json.dumps(message)` of the dictionary that `build_envelope` makes.
unfoldable pub dumps : Envelope → String
unfolding decimal escape hex_digit
dumps e = String.◌∷◌ "{" (
    quoted "job_id" (
      colon (
        String.◌++◌ (decimal e.job_id)
          (comma (quoted "job_type" (colon (quoted e.job_type "}")))))))
