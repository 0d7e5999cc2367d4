-- ===== src/Api/Keys.antt =====
-- handlerAPI/auth.py, class JwksCache: the signing keys of the issuer.
use job_processing_workflow.Prelude.{
  ℕ, ◌+◌, ◌≡◌, ◌↔◌, String, Bool, true, false, not, ◌||◌, ◌&&◌, Option, some, none, List, [], ◌∷◌,
  Key, Dict, lookup, insert, lookup-insert, ltb, ◌==◌, eq_iff, if◌then◌else◌, arith, Bool-cases,
  Option-cases, inl, inr,
}
use job_processing_workflow.Api.{Result, returns, raises, unexpected, unauthorized}

abbrev pub same_kid : Option String → Option String → Bool
same_kid none none = true
same_kid none (some b) = false
same_kid (some a) none = false
same_kid (some a) (some b) = a == b

pub same_kid_iff : (a b : Option String) → (same_kid a b ≡ true) ↔ (a ≡ b)
same_kid_iff none none = ground arith
same_kid_iff none (some b) = ground arith
same_kid_iff (some a) none = ground arith
same_kid_iff (some a) (some b) = ground (arith, eq_iff a b)

instance abbrev pub kid_key : Key (Option String)
kid_key = record { same = same_kid; same_iff = same_kid_iff }

-- `jwt.PyJWK`: its id, and the key that `jwt.decode` takes.
pub record Jwk (K : Type 0) : Type 0 where
  pub key_id : Option String
  pub key : K

pub record JwksCache (K : Type 0) : Type 0 where
  pub ttl : ℕ
  pub keys : Dict (Option String) (Jwk K)
  pub fetched_at : ℕ

-- What the issuer answers to a fetch that begins now: its keys with the time at which they have
-- arrived, or nothing if the request or the reading of its answer raises.
abbrev pub Fetch : Type 0 → Type 0
Fetch K = Option (List (Jwk K) × ℕ)

module _ {K : Type 0} where
  -- `{k.key_id: k for k in keyset.keys}`, on the entries before.
  abbrev pub keys_from : Dict (Option String) (Jwk K) → List (Jwk K) → Dict (Option String) (Jwk K)
  keys_from d [] = d
  keys_from d (k ∷ ks) = keys_from (insert k.key_id k d) ks

  -- `_refresh`, with whether it returned.
  abbrev pub refresh : Fetch K → JwksCache K → JwksCache K × Bool
  refresh none cache = (cache, false)
  refresh (some (keyset, arrived)) cache =
      (record cache { keys = keys_from [] keyset; fetched_at = arrived }, true)

  abbrev pub has : Option String → JwksCache K → Bool
  has kid cache = elim (lookup kid cache.keys) [ none ↦ false | some k ↦ true ]

  abbrev pub refresh_if : Bool → Fetch K → JwksCache K → JwksCache K × Bool
  refresh_if test fetch cache = if test then refresh fetch cache else (cache, true)

  -- The end of `get_key`.
  abbrev pub key_or_refusal : Option String → JwksCache K → Result (Jwk K)
  key_or_refusal kid cache = elim (lookup kid cache.keys) [
    | none ↦ unauthorized "no matching signing key"
    | some k ↦ returns k
  ]

  -- From the second `if` on: another refresh, since the keys may have been rotated.
  abbrev pub after_refresh : Fetch K → Option String → JwksCache K → JwksCache K × Result (Jwk K)
  after_refresh second kid cache =
      let tried = refresh_if (not (has kid cache)) second cache in
      if tried.1 then (tried.0, key_or_refusal kid tried.0) else (tried.0, raises unexpected)

  -- The caller holds the lock, so that no other call comes between. `first` and `second` are what
  -- the issuer answers to the two fetches, where they take place.
  unfoldable pub get_key :
      ℕ → (first second : Fetch K) → Option String → JwksCache K → JwksCache K × Result (Jwk K)
  get_key now first second kid cache =
      let stale = ltb (cache.fetched_at + cache.ttl) now in
      let tried = refresh_if (not (has kid cache) || stale) first cache in
      if tried.1 then after_refresh second kid tried.0 else (tried.0, raises unexpected)

  -- Every key is stored under its own id.
  abbrev pub IsKeyed : Dict (Option String) (Jwk K) → Type 0
  IsKeyed d = (kid : Option String) (k : Jwk K) → lookup kid d ≡ some k → k.key_id ≡ kid

  IsKeyed-insert :
      (k : Jwk K) (d : Dict (Option String) (Jwk K)) → IsKeyed d → IsKeyed (insert k.key_id k d)
  IsKeyed-insert k d h kid j found =
      ground (arith, lookup-insert k.key_id kid k d, same_kid_iff k.key_id kid, h kid j)

  IsKeyed-keys_from :
      (ks : List (Jwk K)) (d : Dict (Option String) (Jwk K)) → IsKeyed d → IsKeyed (keys_from d ks)
  IsKeyed-keys_from [] d h = h
  IsKeyed-keys_from (k ∷ ks) d h = IsKeyed-keys_from ks (insert k.key_id k d) (IsKeyed-insert k d h)

  IsKeyed-refresh_if :
      (test : Bool) (fetch : Fetch K) (cache : JwksCache K)
      → IsKeyed cache.keys
      → IsKeyed (refresh_if test fetch cache).0.keys
  IsKeyed-refresh_if false fetch cache h = h
  IsKeyed-refresh_if true none cache h = h
  IsKeyed-refresh_if true (some (keyset, arrived)) cache h =
      IsKeyed-keys_from keyset [] (λ kid k e. cc)

  Sound : Option String → JwksCache K × Result (Jwk K) → Type 0
  Sound kid r = IsKeyed (r.0).keys × ((k : Jwk K) → r.1 ≡ returns k → k.key_id ≡ kid)

  key_or_refusal-key_id :
      (kid : Option String) (cache : JwksCache K)
      → IsKeyed cache.keys
      → (k : Jwk K) → key_or_refusal kid cache ≡ returns k
      → k.key_id ≡ kid
  key_or_refusal-key_id kid cache h k e = elim (Option-cases (lookup kid cache.keys)) [
    | inl missing ↦ ground (arith, missing)
    | inr (j, found) ↦ ground (arith, found, h kid j found)
  ]

  after_refresh-Sound :
      (second : Fetch K) (kid : Option String) (cache : JwksCache K)
      → IsKeyed cache.keys
      → Sound kid (after_refresh second kid cache)
  unfolding Sound
  after_refresh-Sound second kid cache h =
      let tried = refresh_if (not (has kid cache)) second cache in
      let keyed = IsKeyed-refresh_if (not (has kid cache)) second cache h in
      elim (Bool-cases tried.1) [
        | inl went ↦ rw went (keyed, key_or_refusal-key_id kid tried.0 keyed)
        | inr failed ↦ rw failed (keyed, λ k e. cc)
      ]

  module _ (now : ℕ) (first second : Fetch K) (kid : Option String) (cache : JwksCache K) where
    get_key-Sound : IsKeyed cache.keys → Sound kid (get_key now first second kid cache)
    unfolding get_key Sound
    get_key-Sound h =
        let test = not (has kid cache) || ltb (cache.fetched_at + cache.ttl) now in
        let keyed = IsKeyed-refresh_if test first cache h in
        elim (Bool-cases (refresh_if test first cache).1) [
          | inl went ↦
              rw went (after_refresh-Sound second kid (refresh_if test first cache).0 keyed)
          | inr failed ↦ rw failed (keyed, λ k e. cc)
        ]

    -- Whatever the issuer answers: a key that is returned has the id that was asked for, and the
    -- keys stay stored under their own ids.
    pub get_key-key_id :
        (k : Jwk K)
        → IsKeyed cache.keys
        → (get_key now first second kid cache).1 ≡ returns k
        → (k.key_id ≡ kid) × IsKeyed (get_key now first second kid cache).0.keys
    unfolding Sound
    get_key-key_id k h e = let sound = get_key-Sound h in (sound.1 k e, sound.0)

    -- When the issuer answers: the request is refused exactly when the key is not cached, or the
    -- cache is stale, and neither of two fetches in a row gives a key of this id.
    pub get_key-unauthorized_iff :
        (keyset keyset' : List (Jwk K)) (arrived arrived' : ℕ)
        → first ≡ some (keyset, arrived)
        → second ≡ some (keyset', arrived')
        → ((get_key now first second kid cache).1 ≡ unauthorized "no matching signing key") ↔ (
            (has kid cache && not (ltb (cache.fetched_at + cache.ttl) now) ≡ false)
            × (lookup kid (keys_from [] keyset) ≡ none)
            × (lookup kid (keys_from [] keyset') ≡ none))
    unfolding get_key
    get_key-unauthorized_iff keyset keyset' arrived arrived' h h' =
        elim (Bool-cases (has kid cache && not (ltb (cache.fetched_at + cache.ttl) now))) [
          | inl kept ↦ elim (Option-cases (lookup kid cache.keys)) [
            | inl missing ↦ ground (arith, missing)
            | inr (k, found) ↦ ground (arith, found)
          ]
          | inr asked ↦ elim (Option-cases (lookup kid (keys_from [] keyset))) [
            | inl missing ↦ elim (Option-cases (lookup kid (keys_from [] keyset'))) [
              | inl missing' ↦ ground (arith, h, h', missing, missing')
              | inr (k, found) ↦ ground (arith, h, h', missing, found)
            ]
            | inr (k, found) ↦ ground (arith, h, h', found)
          ]
        ]
