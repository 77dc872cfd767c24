-- ===== src/Hash/Injective.antt =====
-- What equal canonical forms and equal hashes say of the values.
use native.Mathlib.Decide.{ℕ_discrete}
use forensa.Prelude.{ℕ, String, ◌≡◌, ◌≢◌, ◌⊎◌, inl, inr, List, ok, >>=-eq-ok}
use forensa.Json.{Json, sort_keys, dumps}
use forensa.Json.Unique.{dumps_injective}
use forensa.Hash.{Value, normalise, canonical_json, sha256_hex}

-- Two different messages with one digest.
pub record Collision (sha256 : List ℕ → String) : Type 0 where
  pub left : List ℕ
  pub right : List ℕ
  pub differ : left ≢ right
  pub same_digest : sha256 left ≡ sha256 right

-- Both values normalise, and to the same JSON up to the order of keys.
pub record SameContent (a b : Value) : Type 0 where
  pub json_left : Json
  pub json_right : Json
  pub normal_left : normalise a ≡ ok json_left
  pub normal_right : normalise b ≡ ok json_right
  pub same : sort_keys json_left ≡ sort_keys json_right

-- Payloads with the same canonical bytes have the same content.
pub canonical_json-SameContent :
    (a b : Value) {bs : List ℕ}
    → canonical_json a ≡ ok bs
    → canonical_json b ≡ ok bs
    → SameContent a b
unfolding canonical_json
canonical_json-SameContent a b ha hb =
    let (j, ja, ea) = >>=-eq-ok (normalise a) (λ j. ok (dumps j)) ha in
    let (k, kb, eb) = >>=-eq-ok (normalise b) (λ j. ok (dumps j)) hb in
    record {
      json_left = j;
      json_right = k;
      normal_left = ja;
      normal_right = kb;
      same = dumps_injective j k (cc (ea, eb));
    }

module _ (sha256 : List ℕ → String) where
  pub digest_cases : (s t : List ℕ) → sha256 s ≡ sha256 t → (s ≡ t) ⊎ Collision sha256
  digest_cases s t h = decide (s-discrete s t)
    where
      s-discrete : Discrete (List ℕ)
      s-discrete = hlevel ℕ_discrete

      decide : Dec (s ≡ t) → (s ≡ t) ⊎ Collision sha256
      decide (yes e) = inl e
      decide (no n) = inr (record { left = s; right = t; differ = n; same_digest = h })

  -- Payloads with the same hash both normalise, and to the same JSON up to the order of keys,
  -- or two messages with one SHA-256 digest have been found.
  pub sha256_hex-SameContent :
      (a b : Value) {h : String}
      → sha256_hex sha256 a ≡ ok h
      → sha256_hex sha256 b ≡ ok h
      → SameContent a b ⊎ Collision sha256
  unfolding sha256_hex
  sha256_hex-SameContent a b ha hb =
      let (s, ea, es) = >>=-eq-ok (canonical_json a) (λ bs. ok (sha256 bs)) ha in
      let (t, eb, et) = >>=-eq-ok (canonical_json b) (λ bs. ok (sha256 bs)) hb in
      decide s t ea eb (digest_cases s t (cc (es, et)))
    where
      decide :
          (s t : List ℕ)
          → canonical_json a ≡ ok s
          → canonical_json b ≡ ok t
          → (s ≡ t) ⊎ Collision sha256
          → SameContent a b ⊎ Collision sha256
      decide s t ea eb (inl e) = inl (canonical_json-SameContent a b ea (cc (eb, e)))
      decide s t ea eb (inr c) = inr c
