-- ===== src/Models/Json.antt =====
-- The values that a payload holds: what `json.loads` returns for a JSON object.
use job_processing_workflow.Prelude.{ℕ, Bool, String, Dict}

-- An integer: `negsuc n` is -(n + 1).
pub data ℤ : Type 0 where
  pos : ℕ → ℤ
  negsuc : ℕ → ℤ

-- A float is kept as the text that `repr` gives; no code here computes with one.
mutual
  pub data Value : Type 0 where
    null : Value
    boolean : Bool → Value
    integer : ℤ → Value
    float : String → Value
    text : String → Value
    array : Elements → Value
    object : Members → Value

  pub data Elements : Type 0 where
    no_element : Elements
    element : Value → Elements → Elements

  pub data Members : Type 0 where
    no_member : Members
    member : String → Value → Members → Members

-- `dict[str, Any]`
abbrev pub Payload : Type 0
Payload = Dict String Value
