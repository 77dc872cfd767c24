-- ===== src/Auth/Configured.antt =====
-- apps/api/auth/dependencies.py: the verifier that the environment configures, made once, and the
-- principal of a request with it.
use forensa.Prelude.{
  ℕ, ◌≤◌, String, ◌≡◌, ◌⊎◌, inl, inr, refl, ◌||◌, Option, none, some, List, length, if◌then◌else◌,
  ◌==◌, string_eq, arith, ok, err,
}
use forensa.Auth
use forensa.Auth.{Standard, Verifier, Principal, AuthReply, principal, auth_not_configured}
use forensa.Auth.Verified.{IsBearerOf, get_principal-IsBearerOf}

-- `os.environ.get` of `FORENSA_HMAC_SECRET` and of `FORENSA_HMAC_TENANT_ID`.
pub record Environment : Type 0 where
  pub secret_hex : Option String
  pub tenant_id_str : Option String

checked_verifier : Option (List ℕ) → Option ℕ → Option Verifier
checked_verifier (some secret) (some tenant) = elim (Auth.make_verifier tenant secret) [
  | ok v ↦ some v
  | err e ↦ none
]
checked_verifier _ _ = none

module _ (py : Standard) where
  verifier_of_texts : Option String → Option String → Option Verifier
  unfolding checked_verifier
  verifier_of_texts (some hex) (some tenant) =
      if hex == "" || tenant == ""
      then none
      else checked_verifier (py.fromhex hex) (py.parse_uuid tenant)
  verifier_of_texts _ _ = none

  -- The answer, and what the holder holds afterwards.
  unfoldable pub get_or_build_default_verifier :
      Environment → Option Verifier → Option Verifier × Option Verifier
  unfolding verifier_of_texts
  get_or_build_default_verifier env (some cached) = (some cached, some cached)
  get_or_build_default_verifier env none =
      let built = verifier_of_texts env.secret_hex env.tenant_id_str in (built, built)

  reply_with : Option Verifier → ℕ → Option (List ℕ) → AuthReply
  reply_with none now header = auth_not_configured
  reply_with (some v) now header = Auth.get_principal py v now header

  -- `Depends(get_token_verifier)`: a request without a verifier is answered 503.
  unfoldable pub authenticate :
      Environment → Option Verifier → ℕ → Option (List ℕ) → AuthReply × Option Verifier
  unfolding get_or_build_default_verifier reply_with
  authenticate env holder now header =
      let (found, held) = get_or_build_default_verifier env holder in
      (reply_with found now header, held)

  -- The environment names a secret and a tenant, and the secret is not weak.
  pub record IsConfigured (env : Environment) (v : Verifier) : Type 0 where
    pub hex : String
    pub tenant : String
    pub hex_is : env.secret_hex ≡ some hex
    pub tenant_is : env.tenant_id_str ≡ some tenant
    pub secret_read : py.fromhex hex ≡ some v.secret
    pub tenant_read : py.parse_uuid tenant ≡ some v.tenant_id
    pub long : 32 ≤ length v.secret

checked_verifier-some :
    (secret : Option (List ℕ)) (tenant : Option ℕ) (v : Verifier)
    → checked_verifier secret tenant ≡ some v
    → (secret ≡ some v.secret) × (tenant ≡ some v.tenant_id) × (32 ≤ length v.secret)
unfolding checked_verifier Auth.make_verifier
checked_verifier-some (some secret) (some tenant) v h = ground (arith, h)
checked_verifier-some none tenant v h = cc
checked_verifier-some (some secret) none v h = cc

reply_with-principal :
    (py : Standard) (found : Option Verifier) (now : ℕ) (header : Option (List ℕ)) (p : Principal)
    → reply_with py found now header ≡ principal p
    → (v : Verifier) × (found ≡ some v) × (Auth.get_principal py v now header ≡ principal p)
unfolding reply_with
reply_with-principal py none now header p h = cc
reply_with-principal py (some v) now header p h = (v, refl, h)

module _ (py : Standard) (env : Environment) where
  verifier_of_texts-IsConfigured :
      (hex tenant : Option String) (v : Verifier)
      → env.secret_hex ≡ hex
      → env.tenant_id_str ≡ tenant
      → verifier_of_texts py hex tenant ≡ some v
      → IsConfigured py env v
  unfolding verifier_of_texts
  verifier_of_texts-IsConfigured (some hex) (some tenant) v hex_is tenant_is h =
      let (read, tenant_read, long) =
        checked_verifier-some (py.fromhex hex) (py.parse_uuid tenant) v (ground (arith, h)) in
      record {
        hex = hex;
        tenant = tenant;
        hex_is = hex_is;
        tenant_is = tenant_is;
        secret_read = read;
        tenant_read = tenant_read;
        long = long;
      }
  verifier_of_texts-IsConfigured none tenant v hex_is tenant_is h = cc
  verifier_of_texts-IsConfigured (some hex) none v hex_is tenant_is h = cc

  -- A principal is of the verifier that is held from then on: the one that was held, or, where none
  -- was, the one that the environment configures.
  pub record IsAuthenticated (holder held : Option Verifier) (now : ℕ) (header : Option (List ℕ))
      (p : Principal) : Type 0 where
    pub verifier : Verifier
    pub held_is : held ≡ some verifier
    pub from : (holder ≡ some verifier) ⊎ ((holder ≡ none) × IsConfigured py env verifier)
    pub bearer : IsBearerOf py verifier now header p

  -- A request that gets a principal has a header of Bearer, a space and a token of two parts, a
  -- payload and its HMAC under the secret of the verifier that is held from then on, which was
  -- held before or, where none was, is configured with a secret of 32 bytes at least; the
  -- payload has the claims of the principal, is of the tenant of the verifier, names an agent,
  -- and is not expired.
  pub authenticate-IsAuthenticated :
      (holder : Option Verifier) (now : ℕ) (header : Option (List ℕ)) (p : Principal)
      → (authenticate py env holder now header).0 ≡ principal p
      → IsAuthenticated holder (authenticate py env holder now header).1 now header p
  unfolding authenticate get_or_build_default_verifier reply_with
  authenticate-IsAuthenticated (some v) now header p h = record {
    verifier = v;
    held_is = refl;
    from = inl refl;
    bearer = get_principal-IsBearerOf py v now header p h;
  }
  authenticate-IsAuthenticated none now header p h =
      let (v, made, replied) =
        reply_with-principal py (verifier_of_texts py env.secret_hex env.tenant_id_str) now header p
          h in
      record {
        verifier = v;
        held_is = made;
        from = inr (
          refl,
          verifier_of_texts-IsConfigured env.secret_hex env.tenant_id_str v refl refl made,
        );
        bearer = get_principal-IsBearerOf py v now header p replied;
      }
