-- ===== src/Examples/Auth.antt =====
-- apps/api/auth at concrete inputs: a token for an agent, with base64 of one letter for each byte.
use forensa.Prelude.{
  ℕ, suc, ◌+◌, ◌-◌, ◌%◌, String, ◌≡◌, ◌≢◌, ◌∙◌, refl, ap, Option, none, some, List, [], ◌∷◌, ◌++◌,
  map, length, ok, arith, if◌then◌else◌, ◌==◌, string_eq, nat_eq, All, is_space, uuid_str,
}
use forensa.Json.{pos}
use forensa.Auth.{
  Claims, Payload, object, Standard, Verifier, Principal, principal, has_scope, get_claim,
  rstrip_equals, equals_signs, split_on, compare_digest, scopes_of, check_exp, make_verifier,
  b64url_encode, b64url_decode, uuid_of, principal_of, of_parts, verify_token, minted_claims,
  token_of, mint_hmac_token, lower, split_once, lstrip, rstrip, of_header, get_principal,
}
use forensa.Auth.Split.{Base64Laws, IsLetter, rstrip_equals-append}
use forensa.Auth.Mint.{IsReadBack, mint_hmac_token-verify_token}
use forensa.Auth.Verified.{in_time}
use forensa.Auth.Configured.{
  Environment, get_or_build_default_verifier, authenticate, IsAuthenticated,
  authenticate-IsAuthenticated,
}

abbrev buyer_claims : Claims
buyer_claims = minted_claims 7 9 "buyer" ("write" ∷ []) (some (pos 90))

abbrev toy_letters : List ℕ → List ℕ
toy_letters bs = map (λ c. c + 100) bs

abbrev toy_padding : List ℕ → ℕ
toy_padding bs = (4 - length bs % 4) % 4

abbrev toy_loads : List ℕ → Option Payload
toy_loads bs = if length bs == 1 then some (object buyer_claims) else none

abbrev toy_standard : Standard
toy_standard = record {
  urlsafe_b64encode = λ bs. toy_letters bs ++ equals_signs (toy_padding bs);
  urlsafe_b64decode = λ xs. some (map (λ c. c - 100) (rstrip_equals xs));
  hmac_sha256 = λ key message. length key ∷ length message ∷ [];
  loads = toy_loads;
  dumps = λ claims. 1 ∷ [];
  parse_uuid = λ s. if s == uuid_str 7 then some 7 else if s == uuid_str 9 then some 9 else none;
  fromhex = λ s. some (equals_signs 32);
}

toy_letters-All : (bs : List ℕ) → All IsLetter (toy_letters bs)
toy_letters-All [] = tt
toy_letters-All (c ∷ cs) = ((λ e. omega (arith, e), λ e. omega (arith, e)), toy_letters-All cs)

length-toy_letters : (bs : List ℕ) → length (toy_letters bs) ≡ length bs
length-toy_letters [] = refl
length-toy_letters (c ∷ cs) = ap suc (length-toy_letters cs)

toy_letters_back : (bs : List ℕ) → map (λ c. c - 100) (toy_letters bs) ≡ bs
toy_letters_back [] = refl
toy_letters_back (c ∷ cs) = ground (arith, toy_letters_back cs)

toy_laws : Base64Laws toy_standard
toy_laws = record {
  letters = toy_letters;
  padding = toy_padding;
  encode_is = λ bs. refl;
  are_letters = toy_letters-All;
  padding_small = λ bs. omega arith;
  padded = λ bs. omega (arith, length-toy_letters bs);
  decode_encode = λ bs.
      ap (λ xs. some (map (λ c. c - 100) xs))
        (rstrip_equals-append (toy_letters bs) (toy_padding bs) (toy_letters-All bs))
      ∙ ap some (toy_letters_back bs);
}

abbrev secret : List ℕ
secret = equals_signs 32

abbrev verifier : Verifier
verifier = record { tenant_id = 7; secret = secret }

abbrev buyer : Principal
buyer = record { tenant_id = 7; agent_id = 9; agent_slug = "buyer"; scopes = "write" ∷ [] }

made : make_verifier 7 secret ≡ ok verifier
unfolding make_verifier equals_signs
made = refl

read_back : IsReadBack toy_standard buyer_claims
read_back = record { loaded = buyer_claims; loads_dumps = refl; same_members = λ k. refl }

seven_read : toy_standard.parse_uuid (uuid_str 7) ≡ some 7
unfolding uuid_str
seven_read = refl

nine_read : toy_standard.parse_uuid (uuid_str 9) ≡ some 9
unfolding uuid_str
nine_read = refl

abbrev slug : String
slug = "buyer"

buyer_filled : slug ≢ ""
buyer_filled e = cc e

mint_hmac_token-verify_token_example :
    (token : List ℕ) × (mint_hmac_token toy_standard 7 9 "buyer" secret
        ("write" ∷ [])
        (some (pos 90))
      ≡ ok token)
    × (verify_token toy_standard verifier 50 token ≡ ok buyer)
mint_hmac_token-verify_token_example =
    mint_hmac_token-verify_token toy_standard toy_laws 7 9 "buyer" secret ("write" ∷ [])
      (some (pos 90)) verifier 50 made read_back seven_read nine_read buyer_filled
      (in_time 90 (omega arith))

abbrev authorization : List ℕ
authorization =
    b'B'
    ∷ b'E'
    ∷ b'a'
    ∷ b'r'
    ∷ b'e'
    ∷ b'r'
    ∷ b' '
    ∷ (token_of toy_standard secret (1 ∷ []) ++ (b' ' ∷ []))

abbrev environment : Environment
environment = record { secret_hex = some "3d3d"; tenant_id_str = some (uuid_str 7) }

authenticated :
    (authenticate toy_standard environment none 50 (some authorization)).0 ≡ principal buyer
unfolding has_scope get_claim rstrip_equals equals_signs split_on compare_digest scopes_of check_exp
    make_verifier b64url_encode b64url_decode uuid_of principal_of of_parts verify_token
    minted_claims mint_hmac_token lower split_once lstrip rstrip of_header get_principal is_space
    uuid_str get_or_build_default_verifier authenticate
authenticated = refl

authenticate-IsAuthenticated_example :
    IsAuthenticated toy_standard environment none
      (authenticate toy_standard environment none 50 (some authorization)).1
      50
      (some authorization)
      buyer
authenticate-IsAuthenticated_example =
    authenticate-IsAuthenticated toy_standard environment none 50 (some authorization) buyer
      authenticated
