-- ===== src/Auth.antt =====
-- apps/api/auth: principals, bearer tokens with an HMAC, and the principal of a request. A text is the
-- list of its code points, but for the texts of claims. Python's base64, hmac, json and uuid are
-- parameters.
pub mod Split
pub mod Mint
pub mod Verified
pub mod Configured
use forensa.Prelude.{
  ℕ, zero, suc, ◌+◌, ◌-◌, ◌*◌, ◌%◌, String, Bool, true, false, not, ◌&&◌, Option, none, some, List,
  [], ◌∷◌, ◌++◌, length, map, leb, ltb, if◌then◌else◌, ◌==◌, ◌!=◌, nat_eq, string_eq, Result, ok,
  err, Error, ◌>>=◌, ◌>>◌, require, value_error, invalid_token, expired_token, attribute_error,
  uuid_str, is_space,
}
use forensa.Json.{ℤ, pos, negsuc}

pub record Principal : Type 0 where
  pub tenant_id : ℕ
  pub agent_id : ℕ
  pub agent_slug : String
  pub scopes : List String

-- A frozenset is a list of its members.
unfoldable pub has_scope : List String → String → Bool
has_scope [] scope = false
has_scope (s ∷ scopes) scope = if s == scope then true else has_scope scopes scope

-- What the verifier can tell of a value that json read: a number counts microseconds, an element of a
-- list is a text or something else.
pub data Claim : Type 0 where
  null mapping : Claim
  text : String → Claim
  number : ℤ → Claim
  boolean : Bool → Claim
  list : List (Option String) → Claim

abbrev pub Claims : Type 0
Claims = List (String × Claim)

unfoldable pub get_claim : String → Claims → Option Claim
get_claim k [] = none
get_claim k ((j, c) ∷ rest) = if j == k then some c else get_claim k rest

-- `json.loads`: an object, or another value.
pub data Payload : Type 0 where
  object : Claims → Payload
  not_object : Payload

-- `urlsafe_b64encode` and `urlsafe_b64decode`, `hmac.new(secret, message, sha256).digest()`,
-- `json.loads` of UTF-8, `json.dumps` as UTF-8, `UUID` of a text, and `bytes.fromhex`.
pub record Standard : Type 0 where
  pub urlsafe_b64encode : List ℕ → List ℕ
  pub urlsafe_b64decode : List ℕ → Option (List ℕ)
  pub hmac_sha256 : List ℕ → List ℕ → List ℕ
  pub loads : List ℕ → Option Payload
  pub dumps : Claims → List ℕ
  pub parse_uuid : String → Option ℕ
  pub fromhex : String → Option (List ℕ)

is_empty : List ℕ → Bool
is_empty [] = true
is_empty (c ∷ cs) = false

-- `rstrip(b"=")`
unfoldable pub rstrip_equals : List ℕ → List ℕ
unfolding is_empty
rstrip_equals [] = []
rstrip_equals (c ∷ cs) =
    let rest = rstrip_equals cs in if c == b'=' && is_empty rest then [] else c ∷ rest

unfoldable pub equals_signs : ℕ → List ℕ
equals_signs zero = []
equals_signs (suc n) = b'=' ∷ equals_signs n

-- `token.split(".")`
abbrev pub prepend : ℕ → List (List ℕ) → List (List ℕ)
prepend c [] = (c ∷ []) ∷ []
prepend c (p ∷ ps) = (c ∷ p) ∷ ps

unfoldable pub split_on : ℕ → List ℕ → List (List ℕ)
split_on sep [] = [] ∷ []
split_on sep (c ∷ cs) = let rest = split_on sep cs in if c == sep then [] ∷ rest else prepend c rest

-- `hmac.compare_digest`
unfoldable pub compare_digest : List ℕ → List ℕ → Bool
compare_digest [] [] = true
compare_digest [] (b ∷ bs) = false
compare_digest (a ∷ as') [] = false
compare_digest (a ∷ as') (b ∷ bs) = a == b && compare_digest as' bs

all_texts : List (Option String) → Result (List String)
all_texts [] = ok []
all_texts (none ∷ rest) = err invalid_token
all_texts (some s ∷ rest) = do more ← all_texts rest; ok (s ∷ more)

unfoldable pub scopes_of : Option Claim → Result (List String)
unfolding all_texts
scopes_of none = ok []
scopes_of (some (list xs)) = all_texts xs
scopes_of (some _) = err invalid_token

slug_of : Option Claim → Result String
slug_of (some (text s)) = do require (s != "") invalid_token; ok s
slug_of _ = err invalid_token

is_past : ℤ → ℕ → Bool
is_past (negsuc n) now = true
is_past (pos n) now = ltb n now

-- A boolean is an int: it counts seconds.
unfoldable pub check_exp : Option Claim → ℕ → Result (Unit {0})
unfolding is_past
check_exp none now = ok tt
check_exp (some null) now = ok tt
check_exp (some (number n)) now = require (not (is_past n now)) expired_token
check_exp (some (boolean b)) now =
    require (not (is_past (pos (if b then 1_000_000 else 0)) now)) expired_token
check_exp (some _) now = err invalid_token

-- `HmacBearerTokenVerifier`
pub record Verifier : Type 0 where
  pub tenant_id : ℕ
  pub secret : List ℕ

abbrev min_secret_len : ℕ
min_secret_len = 32

unfoldable pub make_verifier : ℕ → List ℕ → Result Verifier
make_verifier tenant secret = do
  require (leb min_secret_len (length secret)) value_error
  ok (record { tenant_id = tenant; secret = secret })

abbrev decoded : Option (List ℕ) → Result (List ℕ)
decoded none = err invalid_token
decoded (some bs) = ok bs

with_exp : Option ℤ → Claims
with_exp none = []
with_exp (some n) = ("exp", number n) ∷ []

unfoldable pub minted_claims : ℕ → ℕ → String → List String → Option ℤ → Claims
unfolding with_exp
minted_claims tenant agent slug scopes exp =
    ("tenant_id", text (uuid_str tenant))
    ∷ ("agent_id", text (uuid_str agent))
    ∷ ("agent_slug", text slug)
    ∷ ("scopes", list (map some scopes))
    ∷ with_exp exp

module _ (py : Standard) where
  unfoldable pub b64url_encode : List ℕ → List ℕ
  unfolding rstrip_equals
  b64url_encode bs = rstrip_equals (py.urlsafe_b64encode bs)

  unfoldable pub b64url_decode : List ℕ → Option (List ℕ)
  unfolding equals_signs
  b64url_decode s = py.urlsafe_b64decode (s ++ equals_signs ((4 - length s % 4) % 4))

  -- `UUID(payload[...])`: of what is neither a text nor None, an AttributeError that is not caught.
  unfoldable pub uuid_of : Option Claim → Result ℕ
  uuid_of none = err invalid_token
  uuid_of (some null) = err invalid_token
  uuid_of (some (text s)) = elim (py.parse_uuid s) [ none ↦ err invalid_token | some n ↦ ok n ]
  uuid_of (some _) = err attribute_error

  unfoldable pub principal_of : Verifier → ℕ → Claims → Result Principal
  unfolding get_claim uuid_of slug_of scopes_of check_exp
  principal_of v now claims = do
    tenant ← uuid_of (get_claim "tenant_id" claims)
    agent ← uuid_of (get_claim "agent_id" claims)
    slug ← slug_of (get_claim "agent_slug" claims)
    require (tenant == v.tenant_id) invalid_token
    scopes ← scopes_of (get_claim "scopes" claims)
    check_exp (get_claim "exp" claims) now
    ok (record { tenant_id = tenant; agent_id = agent; agent_slug = slug; scopes = scopes })

  of_payload : Verifier → ℕ → Option Payload → Result Principal
  of_payload v now (some (object claims)) = principal_of v now claims
  of_payload v now _ = err invalid_token

  unfoldable pub of_parts : Verifier → ℕ → List (List ℕ) → Result Principal
  unfolding b64url_decode compare_digest of_payload principal_of
  of_parts v now (payload_b64 ∷ mac_b64 ∷ []) = do
    payload ← decoded (b64url_decode payload_b64)
    received_mac ← decoded (b64url_decode mac_b64)
    require (compare_digest received_mac (py.hmac_sha256 v.secret payload)) invalid_token
    of_payload v now (py.loads payload)
  of_parts v now _ = err invalid_token

  -- At the time that the clock shows.
  unfoldable pub verify_token : Verifier → ℕ → List ℕ → Result Principal
  unfolding split_on of_parts
  verify_token v now token = of_parts v now (split_on b'.' token)

  abbrev pub token_of : List ℕ → List ℕ → List ℕ
  token_of secret payload =
      b64url_encode payload ++ (b'.' ∷ b64url_encode (py.hmac_sha256 secret payload))

  unfoldable pub mint_hmac_token :
      ℕ → ℕ → String → List ℕ → List String → Option ℤ → Result (List ℕ)
  unfolding minted_claims b64url_encode
  mint_hmac_token tenant agent slug secret scopes exp = do
    require (leb min_secret_len (length secret)) value_error
    ok (token_of secret (py.dumps (minted_claims tenant agent slug scopes exp)))

-- The replies of `get_principal`: the principal, the three 401s, the 503 of `get_token_verifier`, or an
-- exception that no handler takes.
pub data AuthReply : Type 0 where
  principal : Principal → AuthReply
  auth_required token_invalid token_expired auth_not_configured : AuthReply
  unhandled : Error → AuthReply

unfoldable pub lower : ℕ → ℕ
lower c = if leb b'A' c && leb c b'Z' then c + 32 else c

-- `split(" ", 1)`: what stands before the first space, and what stands after it.
unfoldable pub split_once : List ℕ → List ℕ × Option (List ℕ)
split_once [] = ([], none)
split_once (c ∷ cs) =
    let (first, rest) = split_once cs in if c == b' ' then ([], some cs) else (c ∷ first, rest)

-- `strip()`
unfoldable pub lstrip : List ℕ → List ℕ
lstrip [] = []
lstrip (c ∷ cs) = let rest = lstrip cs in if is_space c then rest else c ∷ cs

unfoldable pub rstrip : List ℕ → List ℕ
unfolding is_empty
rstrip [] = []
rstrip (c ∷ cs) = let rest = rstrip cs in if is_space c && is_empty rest then [] else c ∷ rest

abbrev pub bearer : List ℕ
bearer = b'b' ∷ b'e' ∷ b'a' ∷ b'r' ∷ b'e' ∷ b'r' ∷ []

reply_of : Result Principal → AuthReply
reply_of (ok p) = principal p
reply_of (err expired_token) = token_expired
reply_of (err invalid_token) = token_invalid
reply_of (err x) = unhandled x

module _ (py : Standard) (v : Verifier) (now : ℕ) where
  unfoldable pub of_header : List ℕ × Option (List ℕ) → AuthReply
  unfolding lower compare_digest lstrip rstrip reply_of is_empty
  of_header (scheme, none) = token_invalid
  of_header (scheme, some token) =
      if not (compare_digest (map lower scheme) bearer)
      then token_invalid
      else if is_empty token
      then token_invalid
      else reply_of (verify_token py v now (rstrip (lstrip token)))

  unfoldable pub get_principal : Option (List ℕ) → AuthReply
  unfolding split_once of_header
  get_principal none = auth_required
  get_principal (some authorization) = of_header (split_once authorization)
