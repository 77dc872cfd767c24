-- ===== src/Auth/Mint.antt =====
-- apps/api/auth/token.py: a token that is minted is accepted by the verifier with its secret.
use mathlib.Core.Option.{map as option_map}
use forensa.Prelude.{
  ℕ, String, ◌≡◌, ◌≢◌, ◌∙◌, refl, ap, subst, true, false, Option, none, some, List, [], ◌∷◌, length,
  map, leb, nat_eq, string_eq, ◌==◌, beq_refl, arith, ok, require-eq-ok, value_error, uuid_str,
  Bool-cases, inl, inr, eq_iff,
}
use forensa.Json.{ℤ}
use forensa.Auth
use forensa.Auth.{Claim, number, text, list, Claims, object, Principal, Standard, Verifier}
use forensa.Auth.Split.{
  Base64Laws, split_on-join, b64url_encode-letters, b64url_decode-b64url_encode,
}
use forensa.Auth.Verified.{IsUnexpired, without, without_time, in_time, at_true, at_false}

compare_digest_refl : (xs : List ℕ) → Auth.compare_digest xs xs ≡ true
unfolding Auth.compare_digest
compare_digest_refl [] = refl
compare_digest_refl (x ∷ xs) = ground (arith, compare_digest_refl xs)

check_exp-unexpired :
    {c : Option Claim} {now : ℕ} → IsUnexpired now c → Auth.check_exp c now ≡ ok tt
unfolding Auth.check_exp Auth.is_past
check_exp-unexpired without = refl
check_exp-unexpired without_time = refl
check_exp-unexpired (in_time n later) = ground (arith, later)
check_exp-unexpired (at_true later) = ground (arith, later)
check_exp-unexpired (at_false later) = ground (arith, later)

all_texts-map : (scopes : List String) → Auth.all_texts (map some scopes) ≡ ok scopes
unfolding Auth.all_texts
all_texts-map [] = refl
all_texts-map (s ∷ scopes) = rw (all_texts-map scopes) refl

slug_of-text : (s : String) → s ≢ "" → Auth.slug_of (some (text s)) ≡ ok s
unfolding Auth.slug_of
slug_of-text s filled =
    let not_empty : (s == "") ≡ false = elim (Bool-cases (s == "")) [
      | inl e ↦ elim (filled ((eq_iff s "").0 e)) [ ]
      | inr e ↦ e
    ] in
    rw not_empty refl

-- The claims as json reads them back: any object with the same members.
pub record IsReadBack (py : Standard) (claims : Claims) : Type 0 where
  pub loaded : Claims
  pub loads_dumps : py.loads (py.dumps claims) ≡ some (object loaded)
  pub same_members : (k : String) → Auth.get_claim k loaded ≡ Auth.get_claim k claims

get_claim-with_exp :
    (exp : Option ℤ) → Auth.get_claim "exp" (Auth.with_exp exp) ≡ option_map number exp
unfolding Auth.get_claim Auth.with_exp
get_claim-with_exp none = refl
get_claim-with_exp (some n) = refl

uuid_of-text :
    (py : Standard) (s : String) {n : ℕ}
    → py.parse_uuid s ≡ some n
    → Auth.uuid_of py (some (text s)) ≡ ok n
unfolding Auth.uuid_of
uuid_of-text py s read = rw (read, Auth.uuid_of) refl

module _ (py : Standard) (laws : Base64Laws py) where
  split_on-token_of :
      (secret payload : List ℕ)
      → Auth.split_on b'.' (Auth.token_of py secret payload)
        ≡ Auth.b64url_encode py payload ∷ Auth.b64url_encode py (py.hmac_sha256 secret payload) ∷ []
  split_on-token_of secret payload =
      rw
        (
          b64url_encode-letters py laws payload,
          b64url_encode-letters py laws (py.hmac_sha256 secret payload),
        )
        (split_on-join (laws.letters payload) (laws.letters (py.hmac_sha256 secret payload))
          (laws.are_letters payload) (laws.are_letters (py.hmac_sha256 secret payload)))

  -- A token is read as the payload of which it was made.
  verify_token-token_of :
      (v : Verifier) (now : ℕ) (payload : List ℕ)
      → Auth.verify_token py v now (Auth.token_of py v.secret payload)
        ≡ Auth.of_payload py v now (py.loads payload)
  unfolding Auth.verify_token Auth.of_parts
  verify_token-token_of v now payload =
      rw
        (
          split_on-token_of v.secret payload,
          b64url_decode-b64url_encode py laws payload,
          b64url_decode-b64url_encode py laws (py.hmac_sha256 v.secret payload),
          compare_digest_refl (py.hmac_sha256 v.secret payload),
        )
        refl

  principal_of-minted :
      (v : Verifier) (now agent : ℕ) (slug : String) (scopes : List String) (exp : Option ℤ)
      (claims : Claims)
      → ((k : String)
          → Auth.get_claim k claims
            ≡ Auth.get_claim k (Auth.minted_claims v.tenant_id agent slug scopes exp))
      → py.parse_uuid (uuid_str v.tenant_id) ≡ some v.tenant_id
      → py.parse_uuid (uuid_str agent) ≡ some agent
      → slug ≢ ""
      → IsUnexpired now (option_map number exp)
      → Auth.principal_of py v now claims
        ≡ ok (record {
          tenant_id = v.tenant_id;
          agent_id = agent;
          agent_slug = slug;
          scopes = scopes;
        })
  unfolding Auth.principal_of Auth.uuid_of Auth.scopes_of Auth.minted_claims Auth.get_claim
  principal_of-minted v now agent slug scopes exp claims same tenant_read agent_read filled later =
      rw
        (
          ap (Auth.uuid_of py) (same "tenant_id")
              ∙ uuid_of-text py (uuid_str v.tenant_id) tenant_read,
          ap (Auth.uuid_of py) (same "agent_id") ∙ uuid_of-text py (uuid_str agent) agent_read,
          ap Auth.slug_of (same "agent_slug") ∙ slug_of-text slug filled,
          beq_refl v.tenant_id,
          ap Auth.scopes_of (same "scopes") ∙ all_texts-map scopes,
          same "exp",
          get_claim-with_exp exp,
          check_exp-unexpired later,
        )
        refl

  -- Under the laws of base64, where json reads the minted claims back, the ids are read back
  -- from their texts, the slug is not empty and the expiry is none or not past, a token is
  -- minted with the secret of a verifier of the tenant, and that verifier reads it as the
  -- principal with the tenant, agent, slug and scopes for which it was minted.
  pub mint_hmac_token-verify_token :
      (tenant agent : ℕ) (slug : String) (secret : List ℕ) (scopes : List String) (exp : Option ℤ)
      (v : Verifier) (now : ℕ)
      → Auth.make_verifier tenant secret ≡ ok v
      → IsReadBack py (Auth.minted_claims tenant agent slug scopes exp)
      → py.parse_uuid (uuid_str tenant) ≡ some tenant
      → py.parse_uuid (uuid_str agent) ≡ some agent
      → slug ≢ ""
      → IsUnexpired now (option_map number exp)
      → (token : List ℕ) × (Auth.mint_hmac_token py tenant agent slug secret scopes exp ≡ ok token)
        × (Auth.verify_token py v now token
            ≡ ok (record {
              tenant_id = tenant;
              agent_id = agent;
              agent_slug = slug;
              scopes = scopes;
            }))
  unfolding Auth.make_verifier Auth.mint_hmac_token Auth.of_payload
  mint_hmac_token-verify_token tenant agent slug secret scopes exp v now made back tenant_read
        agent_read filled later =
      let it : Verifier = record { tenant_id = tenant; secret = secret } in
      let (long, is) =
        require-eq-ok (leb Auth.min_secret_len (length secret)) value_error (ok it) made in
      let payload = py.dumps (Auth.minted_claims tenant agent slug scopes exp) in
      (
        Auth.token_of py secret payload,
        rw long refl,
        subst
            (λ w.
              Auth.verify_token py w now (Auth.token_of py secret payload)
              ≡ ok (record {
                tenant_id = tenant;
                agent_id = agent;
                agent_slug = slug;
                scopes = scopes;
              }))
            {x = it} {y = v} (cc is)
            (verify_token-token_of it now payload
              ∙ ap (Auth.of_payload py it now) back.loads_dumps
              ∙ principal_of-minted it now agent slug scopes exp back.loaded back.same_members
                  tenant_read agent_read filled later),
      )
