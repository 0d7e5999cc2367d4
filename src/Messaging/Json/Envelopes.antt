-- ===== src/Messaging/Json/Envelopes.antt =====
-- The envelopes of build_envelope of common/models.py, as the module json writes and then reads them.
use job_processing_workflow.Prelude.{
  ℕ, zero, suc, ◌+◌, ◌<◌, ◌≡◌, refl, ap, ◌∙◌, between, Bool-cases, inl, inr, String, Option, some,
  none, arith, Dict, text_key, [], insert, decimal,
}
use Prim.Native.Char.{code}
use Prim.Native.String
use text.Mathlib.TextLemmas.{cons-append, nil-append}
use job_processing_workflow.Models.{Envelope}
use job_processing_workflow.Config.{◌>>=◌}
use job_processing_workflow.Messaging.Json.Writing.{dumps, quoted, colon, comma, escape}
use job_processing_workflow.Messaging.Json.Reading.{
  loads, flat, members, member, Scalar, number, chars, size, natural, as_number, scalar, skip_space,
  expect, at_end, envelope_of,
}
use job_processing_workflow.Messaging.Json.Texts.{scan-escaped, escaped-size}
use job_processing_workflow.Messaging.Json.Numbers.{natural-decimal}

-- A text that begins with a number is taken for a number.
scalar-natural :
    (limit : ℕ) (s : String) (r : ℕ × String)
    → natural s ≡ some r
    → scalar limit (skip_space s) ≡ some (number r.0, r.1)
scalar-natural limit String.[] r h = cc
scalar-natural limit (String.◌∷◌ c s) r h = elim (Bool-cases (between b'0' b'9' (code c))) [
  | inr other ↦ absurd (ground (arith, other, h))
  | inl digit ↦
      let stays : skip_space (String.◌∷◌ c s) ≡ String.◌∷◌ c s = ground (arith, digit) in
      let taken : scalar limit (String.◌∷◌ c s) ≡ as_number (natural (String.◌∷◌ c s)) =
        ground (arith, digit) in
      ap (scalar limit) stays ∙ (taken ∙ ap as_number h)
]

module _ (limit : ℕ) (key : String) (short : size key < limit) where
  -- A member whose value is a number.
  member_number :
      (n : ℕ) (after : String)
      → member limit (quoted key (colon (String.◌++◌ (decimal n) (comma after))))
        ≡ some ((key, number n), comma after)
  member_number n after =
      rw
        (
          scan-escaped limit key (colon (String.◌++◌ (decimal n) (comma after))) short,
          scalar-natural limit (String.◌++◌ (decimal n) (comma after)) (n, comma after)
              (natural-decimal n "," (String.◌∷◌ " " after) refl),
        )
        refl

  -- A member whose value is a text.
  member_text :
      (t after : String)
      → size t < limit
      → member limit (quoted key (colon (quoted t after))) ≡ some ((key, chars t), after)
  member_text t after h =
      rw (scan-escaped limit key (colon (quoted t after)) short, scan-escaped limit t after h) refl

size-append : (s t : String) → size (String.◌++◌ s t) ≡ size s + size t
size-append String.[] t = rw (nil-append) (omega arith)
size-append (String.◌∷◌ c s) t = rw (cons-append) (omega (arith, size-append s t))

module _ (limit fuel : ℕ) (d : Dict String Scalar) (s rest : String) (m : String × Scalar)
    (read : member limit s ≡ some (m, rest)) where
  -- After a member there is another, or the end.
  members_step : members limit (suc fuel) d s ≡ elim (expect b'}' rest) [
    | some after ↦ some (insert m.0 m.1 d, after)
    | none ↦ elim (expect b',' rest) [
      | some more ↦ members limit fuel (insert m.0 m.1 d) more
      | none ↦ none
    ]
  ]
  members_step =
      ap
        (λ (r : Option ((String × Scalar) × String)). elim r [
          | none ↦ none
          | some (n, others) ↦ elim (expect b'}' others) [
            | some after ↦ some (insert n.0 n.1 d, after)
            | none ↦ elim (expect b',' others) [
              | some more ↦ members limit fuel (insert n.0 n.1 d) more
              | none ↦ none
            ]
          ]
        ])
        read

abbrev shown : Envelope → String
shown e = quoted "job_type" (colon (quoted e.job_type "}"))

-- The members of an envelope.
members-dumps :
    (limit fuel : ℕ) (e : Envelope)
    → size e.job_type < limit
    → 8 < limit
    → members limit
        (suc (suc fuel))
        []
        (quoted "job_id" (colon (String.◌++◌ (decimal e.job_id) (comma (shown e)))))
      ≡ some (insert "job_type" (chars e.job_type) (insert "job_id" (number e.job_id) []), "")
members-dumps limit fuel e short long =
    let d : Dict String Scalar = insert "job_id" (number e.job_id) [] in
    members_step limit (suc fuel) []
      (quoted "job_id" (colon (String.◌++◌ (decimal e.job_id) (comma (shown e))))) (comma (shown e))
      ("job_id", number e.job_id) (member_number limit "job_id" (omega arith) e.job_id (shown e))
    ∙ members_step limit fuel d (shown e) "}" ("job_type", chars e.job_type)
        (member_text limit "job_type" (omega arith) e.job_type "}" short)

size-dumps : (e : Envelope) → size e.job_type + 8 < size (dumps e)
unfolding dumps escape
size-dumps e =
    omega (arith, size-append (decimal e.job_id) (comma (shown e)), escaped-size e.job_type "\"}")

members_enough :
    (limit fuel : ℕ) (e : Envelope)
    → size e.job_type < limit
    → 8 < limit
    → 1 < fuel
    → members limit fuel []
        (quoted "job_id" (colon (String.◌++◌ (decimal e.job_id) (comma (shown e)))))
      ≡ some (insert "job_type" (chars e.job_type) (insert "job_id" (number e.job_id) []), "")
members_enough limit zero e short long h = absurd (omega arith)
members_enough limit (suc zero) e short long h = absurd (omega arith)
members_enough limit (suc (suc fuel)) e short long h = members-dumps limit fuel e short long

-- What was written is an object from end to end.
flat-dumps : (e : Envelope) → flat (dumps e) ≡ some e
unfolding dumps
flat-dumps e =
    let limit = size (dumps e) in
    ap
      (λ (r : Option (Dict String Scalar × String)).
        r >>= (λ read. at_end (skip_space read.1) (envelope_of read.0)))
      (members_enough limit limit e (omega (arith, size-dumps e)) (omega (arith, size-dumps e))
        (omega (arith, size-dumps e)))

-- Whatever json.loads makes of other texts: the text of an envelope, whatever its number and
-- whatever the characters of its type, is read as this envelope.
pub loads-dumps : (other : String → Option Envelope) (e : Envelope) → loads other (dumps e) ≡ some e
unfolding loads
loads-dumps other e = ground (arith, flat-dumps e)
