-- ===== src/Api/Principal.antt =====
-- handlerAPI/principal.py, and how handlerAPI/auth.py makes a principal of the claims of a token.
use job_processing_workflow.Prelude.{
  ◌≡◌, refl, ap, String, Bool, true, false, not, ◌||◌, ◌&&◌, Option, some, none, List, [], ◌∷◌,
  Dict, lookup, text_key, any, words, ◌==◌, eq_iff, if◌then◌else◌, arith,
}
use job_processing_workflow.Models.{Creator}

pub record Principal : Type 0 where
  pub subject : String
  pub principal_type : String
  pub client_id : Option String
  pub scopes : List String
  pub groups : List String

abbrev pub is_service : Principal → Bool
is_service p = p.principal_type == "service"

-- `x in xs`, on texts.
abbrev pub is_in : String → List String → Bool
is_in x xs = any (λ y. y == x) xs

abbrev pub has_scope : String → Principal → Bool
has_scope scope p = is_in scope p.scopes

abbrev pub in_group : String → Principal → Bool
in_group group p = is_in group p.groups

abbrev pub to_creator : Principal → Creator
to_creator p = record {
  sub = some p.subject;
  type = some p.principal_type;
  client_id = p.client_id;
}

-- The value of a claim: null, a text, a list (`str` of its elements, and of the list itself), or
-- any other value, with its truth value and its `str`.
pub data Claim : Type 0 where
  null : Claim
  text : String → Claim
  texts : List String → String → Claim
  other : Bool → String → Claim

abbrev pub Claims : Type 0
Claims = Dict String Claim

abbrev pub is_empty {ℓ} : {A : Type ℓ} → List A → Bool
is_empty [] = true
is_empty (x ∷ xs) = false

-- `bool(claim)`, of a claim that `get` has read.
abbrev pub is_true : Option Claim → Bool
is_true none = false
is_true (some null) = false
is_true (some (text s)) = not (s == "")
is_true (some (texts xs printed)) = not (is_empty xs)
is_true (some (other b printed)) = b

-- `a or b`
abbrev pub or_claim : Option Claim → Option Claim → Option Claim
or_claim a b = if is_true a then a else b

-- `str(claim)`
abbrev pub str : Claim → String
str null = "None"
str (text s) = s
str (texts xs printed) = printed
str (other b printed) = printed

-- `a == b`; two lists, or two other values, are compared as they are printed.
abbrev pub same_claim : Claim → Claim → Bool
same_claim null null = true
same_claim (text s) (text t) = s == t
same_claim (texts xs p) (texts ys q) = p == q
same_claim (other b p) (other c q) = p == q
same_claim _ _ = false

abbrev pub is_none : Option Claim → Bool
is_none none = true
is_none (some null) = true
is_none (some _) = false

abbrev pub differs : Option Claim → Option Claim → Bool
differs (some a) (some b) = not (same_claim a b)
differs _ _ = false

-- The part of `Settings` in handlerAPI/config.py by which principals are made and requests allowed.
pub record Settings : Type 0 where
  pub scope_write : String
  pub scope_read : String
  pub scope_read_all : String
  pub groups_claim : String
  pub user_claims : List String

abbrev scopes_of : Option Claim → List String
scopes_of (some (texts xs printed)) = xs
scopes_of _ = []

-- The set as a list; only membership is asked for.
abbrev pub extract_scopes : Claims → List String
extract_scopes claims = elim (lookup "scope" claims) [
  | some (text s) ↦ words s
  | _ ↦ scopes_of (lookup "scp" claims)
]

abbrev groups_of : Option Claim → List String
groups_of none = []
groups_of (some (texts xs printed)) = xs
groups_of (some c) = str c ∷ []

abbrev pub client_id_of : Claims → Option Claim
client_id_of claims = or_claim (lookup "client_id" claims) (lookup "azp" claims)

abbrev pub subject_of : Claims → Option Claim
subject_of claims =
    or_claim (or_claim (lookup "sub" claims) (client_id_of claims)) (some (text "unknown"))

abbrev is_present : Claims → String → Bool
is_present claims c = elim (lookup c claims) [ none ↦ false | some v ↦ true ]

abbrev pub has_user_claim : Settings → Claims → Bool
has_user_claim settings claims = any (is_present claims) settings.user_claims

abbrev pub is_user : Settings → Claims → Bool
is_user settings claims =
    has_user_claim settings claims
    || (not (is_none (subject_of claims))
        && not (is_none (client_id_of claims))
        && differs (subject_of claims) (client_id_of claims))

abbrev pub printed_of : Option Claim → Option String
printed_of none = none
printed_of (some null) = none
printed_of (some c) = some (str c)

abbrev pub str_of : Option Claim → String
str_of none = "None"
str_of (some c) = str c

-- A client id that is not a text is kept as it is printed.
unfoldable pub to_principal : Settings → Claims → Principal
to_principal settings claims = record {
  subject = str_of (subject_of claims);
  principal_type = if is_user settings claims then "user" else "service";
  client_id = printed_of (client_id_of claims);
  scopes = extract_scopes claims;
  groups = groups_of (or_claim (lookup settings.groups_claim claims) (some (texts [] "[]")));
}

abbrev text_of : Option String → Option Claim
text_of none = none
text_of (some u) = some (text u)

-- The subject of a token of this client is absent, empty, or the client itself.
abbrev pub is_own_subject : String → Option String → Bool
is_own_subject client none = true
is_own_subject client (some u) = u == "" || u == client

abbrev pub name_of : String → Option String → String
name_of client none = client
name_of client (some u) = if u == "" then client else u

typed : (a b : Bool) → ((if a || not b then "user" else "service") == "service") ≡ (not a && b)
typed true b = refl
typed false true = refl
typed false false = refl

module _ (settings : Settings) (claims : Claims) (client : String) (sub : Option String)
    (identified : lookup "client_id" claims ≡ some (text client)) (named : client == "" ≡ false)
    (subject : lookup "sub" claims ≡ text_of sub) where
  client_id-eq : client_id_of claims ≡ some (text client)
  client_id-eq = ground (arith, identified, named)

  subject-eq :
      (sub : Option String)
      → lookup "sub" claims ≡ text_of sub
      → subject_of claims ≡ some (text (name_of client sub))
  subject-eq none h = ground (arith, h, client_id-eq, named)
  subject-eq (some u) h = ground (arith, h, client_id-eq, named)

  is_user-eq :
      (sub : Option String)
      → lookup "sub" claims ≡ text_of sub
      → is_user settings claims
        ≡ (has_user_claim settings claims || not (name_of client sub == client))
  is_user-eq sub h = rw (subject-eq sub h, client_id-eq) refl

  is_own : (sub : Option String) → name_of client sub == client ≡ is_own_subject client sub
  is_own none = ground (arith, eq_iff client client)
  is_own (some u) = ground (arith, eq_iff client client)

  -- A token of a named client: the caller counts as a service exactly when the token has none of
  -- the claims of a user, and its subject is absent, empty or the client. The caller goes by the
  -- subject, or else by the client.
  pub to_principal-is_service :
      (is_service (to_principal settings claims)
        ≡ (not (has_user_claim settings claims) && is_own_subject client sub))
      × ((to_principal settings claims).client_id ≡ some client)
      × ((to_principal settings claims).subject ≡ name_of client sub)
  unfolding to_principal
  to_principal-is_service = (
    rw (is_user-eq sub subject, is_own sub)
        (typed (has_user_claim settings claims) (is_own_subject client sub)),
    rw client_id-eq refl,
    ap str_of (subject-eq sub subject),
  )
