-- ===== src/MemoryStore/Unpublished.antt =====
-- What `fetch_unpublished` of common/store.py returns.
use job_processing_workflow.Prelude.{
  ℕ, zero, suc, ◌≤◌, ◌<◌, ◌≡◌, refl, sym, subst, Bool, true, false, not, some, List, [], ◌∷◌, arith,
  Bool-cases, inl, inr, lookup, nat_key, nat_eq, leb, Dict, values, HasDistinctKeys, All, All-imp,
  select, take, take_short, any, ◌||◌, ◌&&◌, length, contains,
}
use job_processing_workflow.Models.{ℤ, pos, negsuc, OutboxMessage}
use job_processing_workflow.MemoryStore.{
  InMemoryStore, insert_sorted, sorted, slice_to, fetch_unpublished,
}
use job_processing_workflow.MemoryStore.Invariant.{IsValid, IsRouted}

module _ {V : Type 0} (P : ℕ × V → Type 0) where
  All-insert_sorted : (x : ℕ × V) (l : List (ℕ × V)) → P x → All P l → All P (insert_sorted x l)
  All-insert_sorted x [] p h = (p, tt)
  All-insert_sorted x (y ∷ l) p h = elim (Bool-cases (leb x.0 y.0)) [
    | inl below ↦ rw below (p, h)
    | inr above ↦ rw above (h.0, All-insert_sorted x l p h.1)
  ]

  All-sorted : (l : List (ℕ × V)) → All P l → All P (sorted l)
  All-sorted [] h = tt
  All-sorted (x ∷ l) h = All-insert_sorted x (sorted l) h.0 (All-sorted l h.1)

  All-select :
      (test : ℕ × V → Bool) (l : List (ℕ × V))
      → All P l
      → All (λ x. P x × (test x ≡ true)) (select test l)
  All-select test [] h = tt
  All-select test (x ∷ l) h = elim (Bool-cases (test x)) [
    | inl passes ↦ rw passes ((h.0, passes), All-select test l h.1)
    | inr fails ↦ rw fails (All-select test l h.1)
  ]

All-values :
    {V : Type 0} (Q : V → Type 0) (P : ℕ × V → Type 0)
    → ((x : ℕ × V) → P x → Q x.1)
    → (l : List (ℕ × V)) → All P l
    → All Q (values l)
All-values Q P f [] h = tt
All-values Q P f (x ∷ l) h = (f x h.0, All-values Q P f l h.1)

pub All-and :
    {A : Type 0} (P Q : A → Type 0) (l : List A) → All P l → All Q l → All (λ x. P x × Q x) l
All-and P Q [] h k = tt
All-and P Q (x ∷ l) h k = ((h.0, k.0), All-and P Q l h.1 k.1)

All-take : {A : Type 0} (Q : A → Type 0) (n : ℕ) (l : List A) → All Q l → All Q (take n l)
All-take Q zero l h = tt
All-take Q (suc n) [] h = tt
All-take Q (suc n) (x ∷ l) h = (h.0, All-take Q n l h.1)

-- Each entry of a dictionary is found under its key.
All-lookup : {V : Type 0} (d : Dict ℕ V) → HasDistinctKeys d → All (λ x. lookup x.0 d ≡ some x.1) d
All-lookup [] h = tt
All-lookup {V} ((j, w) ∷ d) h = (
  ground arith,
  All-imp (λ x. lookup x.0 d ≡ some x.1) (λ x. lookup x.0 ((j, w) ∷ d) ≡ some x.1)
      (λ x e. ground arith) d (All-lookup d h.1),
)

-- A row that the dispatcher takes: it is in the outbox, unpublished, and points to a stored job of
-- the envelope's type.
pub record IsPending (s : InMemoryStore) (msg : OutboxMessage) : Type 0 where
  pub found : lookup msg.id s.outbox ≡ some msg
  pub unpublished : contains msg.id s.published ≡ false
  pub routed : IsRouted s.jobs msg.id msg

abbrev pub is_unpublished : InMemoryStore → ℕ × OutboxMessage → Bool
is_unpublished s row = not (contains row.0 s.published)

unpublished_rows :
    (s : InMemoryStore)
    → IsValid s
    → All
        (λ x. (lookup x.0 s.outbox ≡ some x.1) × (is_unpublished s x ≡ true))
        (select (is_unpublished s) (sorted s.outbox))
unpublished_rows s v =
    All-select (λ x. lookup x.0 s.outbox ≡ some x.1) (is_unpublished s) (sorted s.outbox)
      (All-sorted (λ x. lookup x.0 s.outbox ≡ some x.1) s.outbox
        (All-lookup s.outbox v.distinct_rows))

pub keyed_rows :
    (s : InMemoryStore)
    → IsValid s
    → All (λ x. x.1.id ≡ x.0) (select (is_unpublished s) (sorted s.outbox))
keyed_rows s v =
    All-imp (λ x. (lookup x.0 s.outbox ≡ some x.1) × (is_unpublished s x ≡ true))
      (λ x. x.1.id ≡ x.0) (λ x h. (v.routed x.0 x.1 h.0).keyed) _ (unpublished_rows s v)

-- Whatever the limit, each row that is fetched is pending.
pub fetch_unpublished-IsPending :
    (limit : ℤ) (s : InMemoryStore) → IsValid s → All (IsPending s) (fetch_unpublished limit s)
unfolding fetch_unpublished
fetch_unpublished-IsPending limit s v = cut limit
  where
    pending :
        (x : ℕ × OutboxMessage)
        → (lookup x.0 s.outbox ≡ some x.1) × (is_unpublished s x ≡ true)
        → IsPending s x.1
    pending x (found, free) =
        let i = v.routed x.0 x.1 found in
        record {
          found = ground (arith, i.keyed, found);
          unpublished = ground (arith, i.keyed, free);
          routed = subst (λ k. IsRouted s.jobs k x.1) (sym i.keyed) i;
        }

    rows : All (IsPending s) (values (select (is_unpublished s) (sorted s.outbox)))
    rows = All-values (IsPending s) _ pending _ (unpublished_rows s v)

    cut :
        (limit : ℤ)
        → All (IsPending s) (slice_to limit (values (select (is_unpublished s) (sorted s.outbox))))
    cut (pos n) = All-take (IsPending s) n _ rows
    cut (negsuc n) = All-take (IsPending s) _ _ rows

abbrev pub has_row : ℕ → Dict ℕ OutboxMessage → Bool
has_row k rows = any (λ row. nat_eq row.0 k) rows

any-insert_sorted :
    {V : Type 0} (p : ℕ × V → Bool) (x : ℕ × V) (l : List (ℕ × V))
    → any p (insert_sorted x l) ≡ (p x || any p l)
any-insert_sorted p x [] = refl
any-insert_sorted p x (y ∷ l) = ground (arith, any-insert_sorted p x l)

any-sorted : {V : Type 0} (p : ℕ × V → Bool) (l : List (ℕ × V)) → any p (sorted l) ≡ any p l
any-sorted p [] = refl
any-sorted p (x ∷ l) = ground (arith, any-sorted p l, any-insert_sorted p x (sorted l))

any-select :
    {A : Type 0} (p test : A → Bool) (l : List A)
    → any p (select test l) ≡ any (λ x. test x && p x) l
any-select p test [] = refl
any-select p test (x ∷ l) = ground (arith, any-select p test l)

any-values :
    (k : ℕ) (l : List (ℕ × OutboxMessage))
    → All (λ x. x.1.id ≡ x.0) l
    → any (λ (msg : OutboxMessage). nat_eq msg.id k) (values l) ≡ has_row k l
any-values k [] h = refl
any-values k (x ∷ l) h = ground (arith, any-values k l)

any_found :
    (test : ℕ × OutboxMessage → Bool) (k : ℕ) (d : Dict ℕ OutboxMessage) (msg : OutboxMessage)
    → lookup k d ≡ some msg
    → test (k, msg) ≡ true
    → any (λ x. test x && nat_eq x.0 k) d ≡ true
any_found test k [] msg h passes = cc
any_found test k ((j, w) ∷ d) msg h passes = elim (Bool-cases (nat_eq j k)) [
  | inl here ↦
      let j_is : j ≡ k = ground arith in
      let w_is : w ≡ msg = ground arith in
      let first : test (j, w) ≡ true = rw (j_is, w_is) passes in rw (first, here)
  | inr later ↦ ground (arith, any_found test k d msg)
]

-- A batch that is not full holds every unpublished row.
pub fetch_unpublished_all :
    (n : ℕ) (s : InMemoryStore) (k : ℕ) (msg : OutboxMessage)
    → IsValid s
    → length (fetch_unpublished (pos n) s) < n
    → lookup k s.outbox ≡ some msg
    → contains k s.published ≡ false
    → any (λ (m : OutboxMessage). nat_eq m.id k) (fetch_unpublished (pos n) s) ≡ true
unfolding fetch_unpublished
fetch_unpublished_all n s k msg v short found free =
    let test = λ (row : ℕ × OutboxMessage). not (contains row.0 s.published) in
    let rows = select test (sorted s.outbox) in
    rw
      (
        take_short n (values rows) short,
        any-values k rows (keyed_rows s v),
        any-select (λ x. nat_eq x.0 k) test (sorted s.outbox),
        any-sorted (λ x. test x && nat_eq x.0 k) s.outbox,
      )
      (any_found test k s.outbox msg found (ground arith))

-- Ids in ascending order.
abbrev pub IsAscending : List OutboxMessage → Type 0
IsAscending [] = Unit
IsAscending (m ∷ l) = All (λ (x : OutboxMessage). m.id ≤ x.id) l × IsAscending l

abbrev pub KeysAscending {ℓ} : {V : Type ℓ} → List (ℕ × V) → Type 0
KeysAscending [] = Unit
KeysAscending (x ∷ l) = All (λ y. x.0 ≤ y.0) l × KeysAscending l

KeysAscending-insert_sorted :
    {V : Type 0} (x : ℕ × V) (l : List (ℕ × V))
    → KeysAscending l
    → KeysAscending (insert_sorted x l)
KeysAscending-insert_sorted x [] h = (tt, tt)
KeysAscending-insert_sorted x (y ∷ l) h = elim (Bool-cases (leb x.0 y.0)) [
  | inl below ↦
      let first : x.0 ≤ y.0 = ground arith in
      rw below ((first, All-imp (λ z. y.0 ≤ z.0) (λ z. x.0 ≤ z.0) (λ z q. omega arith) l h.0), h)
  | inr above ↦
      let first : y.0 ≤ x.0 = ground arith in
      rw above
        (All-insert_sorted (λ z. y.0 ≤ z.0) x l first h.0, KeysAscending-insert_sorted x l h.1)
]

pub KeysAscending-sorted : {V : Type 0} (l : List (ℕ × V)) → KeysAscending (sorted l)
KeysAscending-sorted [] = tt
KeysAscending-sorted (x ∷ l) = KeysAscending-insert_sorted x (sorted l) (KeysAscending-sorted l)

KeysAscending-select :
    {V : Type 0} (test : ℕ × V → Bool) (l : List (ℕ × V))
    → KeysAscending l
    → KeysAscending (select test l)
KeysAscending-select test [] h = tt
KeysAscending-select test (x ∷ l) h = elim (Bool-cases (test x)) [
  | inl passes ↦ rw passes (
    All-imp (λ y. (x.0 ≤ y.0) × (test y ≡ true)) (λ y. x.0 ≤ y.0) (λ y q. q.0) _
        (All-select (λ y. x.0 ≤ y.0) test l h.0),
    KeysAscending-select test l h.1,
  )
  | inr fails ↦ rw fails (KeysAscending-select test l h.1)
]

IsAscending-values :
    (l : List (ℕ × OutboxMessage))
    → All (λ x. x.1.id ≡ x.0) l
    → KeysAscending l
    → IsAscending (values l)
IsAscending-values [] k h = tt
IsAscending-values (x ∷ l) k h = (
  All-values (λ (m : OutboxMessage). x.1.id ≤ m.id) (λ y. (x.0 ≤ y.0) × (y.1.id ≡ y.0))
      (λ y q. omega (arith, q.0, q.1, k.0)) l
      (All-and (λ y. x.0 ≤ y.0) (λ y. y.1.id ≡ y.0) l h.0 k.1),
  IsAscending-values l k.1 h.1,
)

IsAscending-take : (n : ℕ) (l : List OutboxMessage) → IsAscending l → IsAscending (take n l)
IsAscending-take zero l h = tt
IsAscending-take (suc n) [] h = tt
IsAscending-take (suc n) (m ∷ l) h =
    (All-take (λ (x : OutboxMessage). m.id ≤ x.id) n l h.0, IsAscending-take n l h.1)

-- Rows are fetched in the order of their ids, oldest first.
pub fetch_unpublished-IsAscending :
    (limit : ℤ) (s : InMemoryStore) → IsValid s → IsAscending (fetch_unpublished limit s)
unfolding fetch_unpublished
fetch_unpublished-IsAscending limit s v = cut limit
  where
    rows : IsAscending (values (select (is_unpublished s) (sorted s.outbox)))
    rows =
        IsAscending-values _ (keyed_rows s v) (
          KeysAscending-select (is_unpublished s) (sorted s.outbox) (KeysAscending-sorted s.outbox))

    cut :
        (limit : ℤ)
        → IsAscending (slice_to limit (values (select (is_unpublished s) (sorted s.outbox))))
    cut (pos n) = IsAscending-take n _ rows
    cut (negsuc n) = IsAscending-take _ _ rows
