-- ===== src/Auth/Verified.antt =====
-- apps/api/auth/token.py: what a token that is accepted says.
use forensa.Prelude.{
  ℕ, ◌≤◌, map, not, if◌then◌else◌, ◌++◌, err, expired_token, String, ◌≡◌, ◌≢◌, ◌∙◌, refl, Bool,
  true, false, Option, none, some, List, [], ◌∷◌, nat_eq, string_eq, ◌==◌, ◌!=◌, ok, ◌>>=◌, ◌>>◌,
  ap, require, require-eq-ok, >>=-eq-ok, nat_beq_iff, subst, invalid_token, arith, Result,
}
use forensa.Json.{pos}
use forensa.Auth
use forensa.Auth.{
  AuthReply, token_invalid, principal, Claim, null, text, number, boolean, Claims, object,
  Principal, Payload, Standard, Verifier,
}

compare_digest-eq : (xs ys : List ℕ) → Auth.compare_digest xs ys ≡ true → xs ≡ ys
unfolding Auth.compare_digest
compare_digest-eq [] [] h = refl
compare_digest-eq [] (y ∷ ys) h = cc
compare_digest-eq (x ∷ xs) [] h = cc
compare_digest-eq (x ∷ xs) (y ∷ ys) h = ground (arith, compare_digest-eq xs ys)

slug_of-eq-ok :
    (c : Option Claim) (s : String) → Auth.slug_of c ≡ ok s → (c ≡ some (text s)) × (s ≢ "")
unfolding Auth.slug_of
slug_of-eq-ok none s h = cc
slug_of-eq-ok (some (text r)) s h =
    let (filled, is) = require-eq-ok (r != "") invalid_token (ok r) h in
    let e : r ≡ s = cc is in (ap (λ t. some (text t)) e, λ empty. cc filled)
slug_of-eq-ok (some _) s h = cc

-- A token without an `exp`, or one that is not past.
pub data IsUnexpired (now : ℕ) : Option Claim → Type 0 where
  without : IsUnexpired now none
  without_time : IsUnexpired now (some null)
  in_time : (n : ℕ) → now ≤ n → IsUnexpired now (some (number (pos n)))
  at_true : now ≤ 1_000_000 → IsUnexpired now (some (boolean true))
  at_false : now ≤ 0 → IsUnexpired now (some (boolean false))

check_exp-IsUnexpired :
    (c : Option Claim) (now : ℕ) → Auth.check_exp c now ≡ ok tt → IsUnexpired now c
unfolding Auth.check_exp Auth.is_past
check_exp-IsUnexpired none now h = without
check_exp-IsUnexpired (some null) now h = without_time
check_exp-IsUnexpired (some (number (pos n))) now h = in_time n (ground (arith, h))
check_exp-IsUnexpired (some (boolean true)) now h = at_true (ground (arith, h))
check_exp-IsUnexpired (some (boolean false)) now h = at_false (ground (arith, h))
check_exp-IsUnexpired (some _) now h = cc

module _ (py : Standard) (v : Verifier) (now : ℕ) where
  -- The claims that a principal stands for.
  pub record IsPrincipalOf (claims : Claims) (p : Principal) : Type 0 where
    pub tenant_is : p.tenant_id ≡ v.tenant_id
    pub tenant_claim : Auth.uuid_of py (Auth.get_claim "tenant_id" claims) ≡ ok p.tenant_id
    pub agent_claim : Auth.uuid_of py (Auth.get_claim "agent_id" claims) ≡ ok p.agent_id
    pub slug_claim : Auth.get_claim "agent_slug" claims ≡ some (text p.agent_slug)
    pub slug_filled : p.agent_slug ≢ ""
    pub scopes_claim : Auth.scopes_of (Auth.get_claim "scopes" claims) ≡ ok p.scopes
    pub unexpired : IsUnexpired now (Auth.get_claim "exp" claims)

  principal_of-IsPrincipalOf :
      (claims : Claims) (p : Principal)
      → Auth.principal_of py v now claims ≡ ok p
      → IsPrincipalOf claims p
  unfolding Auth.principal_of
  principal_of-IsPrincipalOf claims p h =
      let exp = Auth.check_exp (Auth.get_claim "exp" claims) now in
      let made : ℕ → ℕ → String → List String → Principal = λ tenant agent slug scopes. record {
        tenant_id = tenant;
        agent_id = agent;
        agent_slug = slug;
        scopes = scopes;
      } in
      let rest4 : ℕ → ℕ → String → List String → Result Principal =
        λ tenant agent slug scopes. exp >> ok (made tenant agent slug scopes) in
      let rest3 : ℕ → ℕ → String → Result Principal = λ tenant agent slug.
        Auth.scopes_of (Auth.get_claim "scopes" claims) >>= rest4 tenant agent slug in
      let rest2 : ℕ → ℕ → String → Result Principal = λ tenant agent slug.
        require (tenant == v.tenant_id) invalid_token >> rest3 tenant agent slug in
      let rest1 : ℕ → ℕ → Result Principal =
        λ tenant agent. Auth.slug_of (Auth.get_claim "agent_slug" claims) >>= rest2 tenant agent in
      let rest : ℕ → Result Principal =
        λ tenant. Auth.uuid_of py (Auth.get_claim "agent_id" claims) >>= rest1 tenant in
      let (tenant, e1, h1) =
        >>=-eq-ok (Auth.uuid_of py (Auth.get_claim "tenant_id" claims)) rest h in
      let (agent, e2, h2) =
        >>=-eq-ok (Auth.uuid_of py (Auth.get_claim "agent_id" claims)) (rest1 tenant) h1 in
      let (slug, e3, h3) =
        >>=-eq-ok (Auth.slug_of (Auth.get_claim "agent_slug" claims)) (rest2 tenant agent) h2 in
      let (same, h4) =
        require-eq-ok (tenant == v.tenant_id) invalid_token (rest3 tenant agent slug) h3 in
      let (scopes, e5, h5) =
        >>=-eq-ok (Auth.scopes_of (Auth.get_claim "scopes" claims)) (rest4 tenant agent slug) h4 in
      let (_, e6, h6) = >>=-eq-ok exp (λ _. ok (made tenant agent slug scopes)) h5 in
      let is : made tenant agent slug scopes ≡ p = cc h6 in
      let (claim, filled) = slug_of-eq-ok (Auth.get_claim "agent_slug" claims) slug e3 in
      subst (λ q. IsPrincipalOf claims q) is
        (record {
          tenant_is = (nat_beq_iff tenant v.tenant_id).0 same;
          tenant_claim = e1;
          agent_claim = e2;
          slug_claim = claim;
          slug_filled = filled;
          scopes_claim = e5;
          unexpired = check_exp-IsUnexpired (Auth.get_claim "exp" claims) now e6;
        })

  -- A token of two parts: a payload, and its HMAC under the secret.
  pub record IsTokenOf (token : List ℕ) (p : Principal) : Type 0 where
    pub payload_b64 : List ℕ
    pub mac_b64 : List ℕ
    pub payload : List ℕ
    pub claims : Claims
    pub parts_are : Auth.split_on b'.' token ≡ payload_b64 ∷ mac_b64 ∷ []
    pub payload_is : Auth.b64url_decode py payload_b64 ≡ some payload
    pub mac_is : Auth.b64url_decode py mac_b64 ≡ some (py.hmac_sha256 v.secret payload)
    pub claims_are : py.loads payload ≡ some (object claims)
    pub principal_is : IsPrincipalOf claims p

  decoded-eq-ok : (o : Option (List ℕ)) (bs : List ℕ) → Auth.decoded o ≡ ok bs → o ≡ some bs
  decoded-eq-ok none bs h = cc
  decoded-eq-ok (some cs) bs h = cc h

  of_payload-eq-ok :
      (o : Option Payload) (p : Principal)
      → Auth.of_payload py v now o ≡ ok p
      → (claims : Claims) × (o ≡ some (object claims)) × IsPrincipalOf claims p
  unfolding Auth.of_payload
  of_payload-eq-ok (some (object claims)) p h =
      (claims, refl, principal_of-IsPrincipalOf claims p h)
  of_payload-eq-ok _ p h = cc

  of_parts-IsTokenOf :
      (token : List ℕ) (parts : List (List ℕ))
      → Auth.split_on b'.' token ≡ parts
      → (p : Principal) → Auth.of_parts py v now parts ≡ ok p
      → IsTokenOf token p
  unfolding Auth.of_parts
  of_parts-IsTokenOf token (payload_b64 ∷ mac_b64 ∷ []) split p h =
      let checked : List ℕ → List ℕ → Result Principal = λ payload mac.
        require (Auth.compare_digest mac (py.hmac_sha256 v.secret payload)) invalid_token
        >> Auth.of_payload py v now (py.loads payload) in
      let rest : List ℕ → Result Principal =
        λ payload. Auth.decoded (Auth.b64url_decode py mac_b64) >>= checked payload in
      let (payload, e1, h1) = >>=-eq-ok (Auth.decoded (Auth.b64url_decode py payload_b64)) rest h in
      let (mac, e2, h2) =
        >>=-eq-ok (Auth.decoded (Auth.b64url_decode py mac_b64)) (checked payload) h1 in
      let (same, h3) =
        require-eq-ok (Auth.compare_digest mac (py.hmac_sha256 v.secret payload)) invalid_token
          (Auth.of_payload py v now (py.loads payload)) h2 in
      let (claims, loaded, is) = of_payload-eq-ok (py.loads payload) p h3 in
      record {
        payload_b64 = payload_b64;
        mac_b64 = mac_b64;
        payload = payload;
        claims = claims;
        parts_are = split;
        payload_is = decoded-eq-ok (Auth.b64url_decode py payload_b64) payload e1;
        mac_is =
            decoded-eq-ok (Auth.b64url_decode py mac_b64) mac e2
            ∙ ap some (compare_digest-eq mac (py.hmac_sha256 v.secret payload) same);
        claims_are = loaded;
        principal_is = is;
      }
  of_parts-IsTokenOf token _ split p h = cc

  pub verify_token-IsTokenOf :
      (token : List ℕ) (p : Principal) → Auth.verify_token py v now token ≡ ok p → IsTokenOf token p
  unfolding Auth.verify_token
  verify_token-IsTokenOf token p h = of_parts-IsTokenOf token (Auth.split_on b'.' token) refl p h

reply_of-principal :
    (r : Result Principal) (p : Principal) → Auth.reply_of r ≡ principal p → r ≡ ok p
unfolding Auth.reply_of
reply_of-principal (ok q) p h = cc h
reply_of-principal (err expired_token) p h = cc
reply_of-principal (err invalid_token) p h = cc
reply_of-principal (err _) p h = cc

split_once-joins :
    (xs rest : List ℕ)
    → (Auth.split_once xs).1 ≡ some rest
    → xs ≡ (Auth.split_once xs).0 ++ (b' ' ∷ rest)
unfolding Auth.split_once
split_once-joins [] rest h = cc
split_once-joins (c ∷ cs) rest h = ground (arith, h, split_once-joins cs rest)

guards-pass :
    (is_bearer empty : Bool) (r : AuthReply) (p : Principal)
    → (if not is_bearer then token_invalid else if empty then token_invalid else r) ≡ principal p
    → (is_bearer ≡ true) × (r ≡ principal p)
guards-pass true false r p h = (refl, h)
guards-pass true true r p h = cc
guards-pass false empty r p h = cc

module _ (py : Standard) (v : Verifier) (now : ℕ) where
  -- `Bearer` in any case, a space, and a token within white space.
  pub record IsBearerOf (header : Option (List ℕ)) (p : Principal) : Type 0 where
    pub scheme : List ℕ
    pub rest : List ℕ
    pub header_is : header ≡ some (scheme ++ (b' ' ∷ rest))
    pub scheme_is : map Auth.lower scheme ≡ Auth.bearer
    pub token_is : IsTokenOf py v now (Auth.rstrip (Auth.lstrip rest)) p

  of_header-principal :
      (scheme : List ℕ) (token : Option (List ℕ)) (p : Principal)
      → Auth.of_header py v now (scheme, token) ≡ principal p
      → (rest : List ℕ) × (token ≡ some rest)
        × (map Auth.lower scheme ≡ Auth.bearer)
        × IsTokenOf py v now (Auth.rstrip (Auth.lstrip rest)) p
  unfolding Auth.of_header
  of_header-principal scheme none p h = cc
  of_header-principal scheme (some rest) p h =
      let answer = Auth.verify_token py v now (Auth.rstrip (Auth.lstrip rest)) in
      let is_bearer = Auth.compare_digest (map Auth.lower scheme) Auth.bearer in
      let (same, replied) = guards-pass is_bearer (Auth.is_empty rest) (Auth.reply_of answer) p h in
      (
        rest,
        refl,
        compare_digest-eq (map Auth.lower scheme) Auth.bearer same,
        verify_token-IsTokenOf py v now (Auth.rstrip (Auth.lstrip rest)) p
            (reply_of-principal answer p replied),
      )

  pub get_principal-IsBearerOf :
      (header : Option (List ℕ)) (p : Principal)
      → Auth.get_principal py v now header ≡ principal p
      → IsBearerOf header p
  unfolding Auth.get_principal
  get_principal-IsBearerOf none p h = cc
  get_principal-IsBearerOf (some header) p h =
      let split = Auth.split_once header in
      let (rest, e, is, token) = of_header-principal split.0 split.1 p h in
      record {
        scheme = split.0;
        rest = rest;
        header_is = ap some (split_once-joins header rest e);
        scheme_is = is;
        token_is = token;
      }
