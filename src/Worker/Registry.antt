-- ===== src/Worker/Registry.antt =====
-- worker/registry.py: which handler runs the jobs of a type. The dictionary of the module is a
-- parameter and a result of each function.
use job_processing_workflow.Prelude.{
  ◌≡◌, refl, String, Bool, true, false, Option, some, none, List, [], ◌∷◌, Dict, lookup, insert,
  lookup-insert, text_key, ◌==◌, eq_iff, if◌then◌else◌, any, ◌||◌, Option-cases, inl, inr, arith,
}
use mathlib.Core.Option.{get_or}
use Prim.Native.Nat.{Ordering}
use Prim.Native.String

abbrev pub at_most : String → String → Bool
at_most s t = elim (String.compare s t) [ Ordering.gt ↦ false | _ ↦ true ]

abbrev pub insert_text : String → List String → List String
insert_text t [] = t ∷ []
insert_text t (u ∷ us) = if at_most t u then t ∷ u ∷ us else u ∷ insert_text t us

any-insert_text :
    (t u : String) (us : List String)
    → any (λ x. x == t) (insert_text u us) ≡ (u == t || any (λ x. x == t) us)
any-insert_text t u [] = ground arith
any-insert_text t u (x ∷ us) = ground (arith, any-insert_text t u us)

module _ {ℓ} {H : Type ℓ} where
  abbrev pub is_registered : String → Dict String H → Bool
  is_registered t registry = elim (lookup t registry) [ none ↦ false | some h ↦ true ]

  -- `register(t)(h)`: the registry it leaves, and whether it returned. It raises on a type that has
  -- a handler.
  unfoldable pub register : String → H → Dict String H → Dict String H × Bool
  register t h registry =
      if is_registered t registry then (registry, false) else (insert t h registry, true)

  unfoldable pub get_handler : String → Dict String H → Option H
  get_handler t registry = lookup t registry

  -- `sorted(registry)`
  unfoldable pub registered_types : Dict String H → List String
  registered_types [] = []
  registered_types ((t, h) ∷ registry) = insert_text t (registered_types registry)

  -- A registration takes effect if the type has no handler, and changes nothing if it has one; it
  -- never changes the handler of another type.
  pub register-get_handler :
      (t u : String) (h : H) (registry : Dict String H)
      → get_handler u (register t h registry).0
        ≡ (if t == u then some (get_or (get_handler t registry) h) else get_handler u registry)
  unfolding register get_handler
  register-get_handler t u h registry = elim (Option-cases (lookup t registry)) [
    | inl missing ↦ ground (arith, missing, lookup-insert t u h registry)
    | inr (old, found) ↦ ground (arith, found, eq_iff t u)
  ]

  -- The types that are listed are those that have a handler.
  registered_types-any :
      (t : String) (registry : Dict String H)
      → any (λ x. x == t) (registered_types registry) ≡ is_registered t registry
  unfolding registered_types
  registered_types-any t [] = refl
  registered_types-any t ((u, h) ∷ registry) =
      ground
        (arith, any-insert_text t u (registered_types registry), registered_types-any t registry)
