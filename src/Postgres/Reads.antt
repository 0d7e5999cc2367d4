-- ===== src/Postgres/Reads.antt =====
-- `fetch_unpublished` of common/db.py against InMemoryStore: to select rows and then order them is
-- to order them and then select.
use job_processing_workflow.Prelude.{
  ℕ, ◌≤◌, ◌≡◌, refl, ap, sym, ◌∙◌, Bool, false, not, none, List, [], ◌∷◌, nat_eq, leb,
  if◌then◌else◌, lookup, nat_key, arith, map, select, contains, All, All-imp, Bool-cases, inl, inr,
  HasDistinctKeys,
}
use mathlib.Core.List.{Permᴰ}
use mathlib.Core.List.Permᴰ
use job_processing_workflow.MemoryStore.{insert_sorted, sorted}
use job_processing_workflow.MemoryStore.Unpublished.{All-and, KeysAscending, KeysAscending-sorted}
use job_processing_workflow.Postgres.{OutboxRow, keyed, is_null}
use job_processing_workflow.Postgres.View.{view_outbox, is_published}

module _ {V : Type 0} (test : ℕ × V → Bool) where
  insert_sorted_least :
      (x : ℕ × V) (l : List (ℕ × V))
      → All (λ y. x.0 ≤ y.0) l
      → insert_sorted x (select test l) ≡ x ∷ select test l
  insert_sorted_least x [] h = refl
  insert_sorted_least x (y ∷ l) h = ground (arith, insert_sorted_least x l, h.0, h.1)

  select-insert_sorted :
      (x : ℕ × V) (l : List (ℕ × V))
      → KeysAscending l
      → select test (insert_sorted x l)
        ≡ (if test x then insert_sorted x (select test l) else select test l)
  select-insert_sorted x [] h = refl
  select-insert_sorted x (y ∷ l) h = elim (Bool-cases (leb x.0 y.0)) [
    | inl below ↦
        let all : All (λ z. x.0 ≤ z.0) (y ∷ l) =
          (ground arith, All-imp (λ z. y.0 ≤ z.0) (λ z. x.0 ≤ z.0) (λ z q. ground arith) l h.0) in
        let least = insert_sorted_least x (y ∷ l) all in rw below (ground (arith, least))
    | inr above ↦ rw above (ground (arith, select-insert_sorted x l h.1))
  ]

  pub select-sorted : (l : List (ℕ × V)) → select test (sorted l) ≡ sorted (select test l)
  select-sorted [] = refl
  select-sorted (x ∷ l) =
      ground (arith, select-insert_sorted x (sorted l) (KeysAscending-sorted l), select-sorted l)

others :
    (k : ℕ) (rows : List OutboxRow)
    → lookup k (view_outbox rows) ≡ none
    → All (λ (r : OutboxRow). nat_eq k r.id ≡ false) rows
others k [] h = tt
others k (r ∷ rows) h = (ground arith, others k rows (ground arith))

unpublished_elsewhere :
    (k : ℕ) (rows : List OutboxRow)
    → lookup k (view_outbox rows) ≡ none
    → is_published k rows ≡ false
unpublished_elsewhere k [] h = refl
unpublished_elsewhere k (r ∷ rows) h = ground (arith, unpublished_elsewhere k rows)

abbrev IsRead : List OutboxRow → OutboxRow → Type 0
IsRead rows r = is_null r.published_at ≡ not (is_published r.id rows)

reads : (rows : List OutboxRow) → HasDistinctKeys (view_outbox rows) → All (IsRead rows) rows
reads [] d = tt
reads (r ∷ rows) d = (
  ground (arith, unpublished_elsewhere r.id rows),
  All-imp (λ q. IsRead rows q × (nat_eq r.id q.id ≡ false)) (IsRead (r ∷ rows))
      (λ q h. ground (arith, h.0, h.1)) rows
      (All-and (IsRead rows) (λ q. nat_eq r.id q.id ≡ false) rows (reads rows (ground arith))
        (others r.id rows (ground arith))),
)

-- The rows whose `published_at` is null, as those whose id is not among the published ones.
pub null_rows :
    (published : List ℕ) (rows : List OutboxRow)
    → All (λ (r : OutboxRow). is_null r.published_at ≡ not (contains r.id published)) rows
    → map keyed (select (λ (r : OutboxRow). is_null r.published_at) rows)
      ≡ select (λ x. not (contains x.0 published)) (view_outbox rows)
null_rows published [] h = refl
null_rows published (r ∷ rows) h = ground (arith, null_rows published rows, h.0, h.1)

pub unpublished_rows :
    (published : List ℕ) (rows : List OutboxRow)
    → HasDistinctKeys (view_outbox rows)
    → ((k : ℕ) → contains k published ≡ is_published k rows)
    → map keyed (select (λ (r : OutboxRow). is_null r.published_at) rows)
      ≡ select (λ x. not (contains x.0 published)) (view_outbox rows)
unpublished_rows published rows d h = null_rows published rows (
    All-imp (IsRead rows) (λ r. is_null r.published_at ≡ not (contains r.id published))
      (λ r q. ground (arith, h r.id)) rows (reads rows d))

module _ {A : Type 0} (test : A → Bool) where
  -- To select from the same elements in another order.
  pub select-perm : {l m : List A} → Permᴰ l m → Permᴰ (select test l) (select test m)
  select-perm Permᴰ.nil = Permᴰ.nil
  select-perm (Permᴰ.cons {a = a} {b = b} e p) = elim (Bool-cases (test a)) [
    | inl taken_a ↦ rw (taken_a, sym (ap test e) ∙ taken_a) (Permᴰ.cons e (select-perm p))
    | inr left_a ↦ rw (left_a, sym (ap test e) ∙ left_a) (select-perm p)
  ]
  select-perm (Permᴰ.swap {a = a} {b = b} {l = l} e f) = elim (Bool-cases (test a)) [
    | inl taken_a ↦ elim (Bool-cases (test b)) [
      | inl taken_b ↦
          rw (taken_a, taken_b, sym (ap test e) ∙ taken_a, sym (ap test f) ∙ taken_b)
            (Permᴰ.swap e f)
      | inr left_b ↦
          rw (taken_a, left_b, sym (ap test e) ∙ taken_a, sym (ap test f) ∙ left_b)
            (Permᴰ.cons e (Permᴰ.refl (select test l)))
    ]
    | inr left_a ↦ elim (Bool-cases (test b)) [
      | inl taken_b ↦
          rw (left_a, taken_b, sym (ap test e) ∙ left_a, sym (ap test f) ∙ taken_b)
            (Permᴰ.cons f (Permᴰ.refl (select test l)))
      | inr left_b ↦
          rw (left_a, left_b, sym (ap test e) ∙ left_a, sym (ap test f) ∙ left_b)
            (Permᴰ.refl (select test l))
    ]
  ]
  select-perm (Permᴰ.trans p q) = Permᴰ.trans (select-perm p) (select-perm q)
