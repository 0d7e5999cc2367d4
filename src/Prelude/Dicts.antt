-- ===== src/Prelude/Dicts.antt =====
-- A Python dictionary as an association list in insertion order.
use mathlib.Core.Path.{◌≡◌, refl}
use mathlib.Core.Option
use mathlib.Core.Option.{Option, none, some}
use mathlib.Core.List.{List, [], ◌∷◌}
use native.Mathlib.Omega.{arith}
use job_processing_workflow.Prelude.Tests.{if◌then◌else◌, Key}

-- `a if a is not None else b`
abbrev pub or_else {ℓ} : {A : Type ℓ} → Option A → Option A → Option A
or_else none b = b
or_else (some a) b = some a

abbrev pub Dict {ℓ κ} : Type ℓ → Type κ → Type (ℓ ⊔ κ)
Dict K V = List (K × V)

module _ {ℓ κ} {K : Type ℓ} {V : Type κ} where
  abbrev pub values : Dict K V → List V
  values [] = []
  values ((_, v) ∷ d) = v ∷ values d

module _ {ℓ κ} {K : Type ℓ} {V : Type κ} ⦃key : Key K⦄ where
  -- `d.get(k)`
  abbrev pub lookup : K → Dict K V → Option V
  lookup k [] = none
  lookup k ((j, v) ∷ d) = if key.same j k then some v else lookup k d

  -- `d[k] = v`: an old key keeps its place, a new one goes to the end.
  abbrev pub insert : K → V → Dict K V → Dict K V
  insert k v [] = (k, v) ∷ []
  insert k v ((j, w) ∷ d) = if key.same j k then (j, v) ∷ d else (j, w) ∷ insert k v d

  -- An update in place of the object that `d.get(k)` returns; nothing on a missing key.
  abbrev pub adjust : K → (V → V) → Dict K V → Dict K V
  adjust k f [] = []
  adjust k f ((j, w) ∷ d) = if key.same j k then (j, f w) ∷ d else (j, w) ∷ adjust k f d

  -- `{**d, **e}`
  abbrev pub overlay : Dict K V → Dict K V → Dict K V
  overlay d [] = d
  overlay d ((k, v) ∷ over) = overlay (insert k v d) over

  -- No two entries have one key, as in every dictionary.
  abbrev pub HasDistinctKeys : Dict K V → Type κ
  HasDistinctKeys [] = Unit
  HasDistinctKeys ((k, v) ∷ d) = (lookup k d ≡ none) × HasDistinctKeys d

  pub lookup-insert :
      (k j : K) (v : V) (d : Dict K V)
      → lookup j (insert k v d) ≡ (if key.same k j then some v else lookup j d)
  lookup-insert k j v [] = refl
  lookup-insert k j v ((i, w) ∷ d) =
      ground (arith, key.same_iff k j, key.same_iff i k, key.same_iff i j, lookup-insert k j v d)

  pub lookup-adjust :
      (k j : K) (f : V → V) (d : Dict K V)
      → lookup j (adjust k f d) ≡ (if key.same k j then Option.map f (lookup j d) else lookup j d)
  lookup-adjust k j f [] = ground arith
  lookup-adjust k j f ((i, w) ∷ d) =
      ground (arith, key.same_iff k j, key.same_iff i k, key.same_iff i j, lookup-adjust k j f d)

  -- The entries of the right operand win.
  pub lookup-overlay :
      (j : K) (d over : Dict K V)
      → HasDistinctKeys over
      → lookup j (overlay d over) ≡ or_else (lookup j over) (lookup j d)
  lookup-overlay j d [] h = refl
  lookup-overlay j d ((k, v) ∷ over) h =
      ground
        (arith, key.same_iff k j, lookup-overlay j (insert k v d) over h.1, lookup-insert k j v d)

  pub insert-HasDistinctKeys :
      (k : K) (v : V) (d : Dict K V) → HasDistinctKeys d → HasDistinctKeys (insert k v d)
  insert-HasDistinctKeys k v [] h = (refl, tt)
  insert-HasDistinctKeys k v ((j, w) ∷ d) h = ground (
    arith,
    insert-HasDistinctKeys k v d,
    lookup-insert k j v d,
    key.same_iff k j,
    key.same_iff j k,
  )

  pub adjust-HasDistinctKeys :
      (k : K) (f : V → V) (d : Dict K V) → HasDistinctKeys d → HasDistinctKeys (adjust k f d)
  adjust-HasDistinctKeys k f [] h = tt
  adjust-HasDistinctKeys k f ((j, w) ∷ d) h = ground (
    arith,
    adjust-HasDistinctKeys k f d,
    lookup-adjust k j f d,
    key.same_iff k j,
    key.same_iff j k,
  )
