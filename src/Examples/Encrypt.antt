-- ===== src/Examples/Encrypt.antt =====
-- packages/crypto/encrypt.py at a concrete input, with numbers in unary in place of base64.
use Prim.Native.Char.{code}
use Prim.Native.String.{char_at}
use forensa.Prelude.{
  ℕ, zero, suc, ◌+◌, String, ◌≡◌, ◌∙◌, refl, ap, Option, none, some, List, [], ◌∷◌, length, ◌==◌,
  nat_eq, beq_refl, if◌then◌else◌, ok, arith,
}
use forensa.Encrypt.{
  Primitives, PrimitiveLaws, CipherEnvelope, encrypt_for_recipient, decrypt_for_recipient,
  encrypt_for_recipient-decrypt,
}
use forensa.Examples.Data.{private_key}

abbrev strokes : ℕ → String → String
strokes zero rest = String.◌∷◌ (char_at "b" 0) rest
strokes (suc n) rest = String.◌∷◌ (char_at "a" 0) (strokes n rest)

abbrev toy_b64encode : List ℕ → String
toy_b64encode [] = ""
toy_b64encode (n ∷ ns) = strokes n (toy_b64encode ns)

abbrev one_more : List ℕ → List ℕ
one_more [] = []
one_more (n ∷ ns) = suc n ∷ ns

abbrev toy_b64decode : String → List ℕ
toy_b64decode String.[] = []
toy_b64decode (String.◌∷◌ c s) =
    let rest = toy_b64decode s in if code c == 97 then one_more rest else zero ∷ rest

decode-strokes : (n : ℕ) (rest : String) → toy_b64decode (strokes n rest) ≡ n ∷ toy_b64decode rest
decode-strokes zero rest = refl
decode-strokes (suc n) rest = ap one_more (decode-strokes n rest)

decode-encode : (ns : List ℕ) → toy_b64decode (toy_b64encode ns) ≡ ns
decode-encode [] = refl
decode-encode (n ∷ ns) =
    decode-strokes n (toy_b64encode ns) ∙ ap (λ (ms : List ℕ). n ∷ ms) (decode-encode ns)

abbrev toy_unseal : List ℕ → List ℕ → Option (List ℕ)
toy_unseal k [] = none
toy_unseal k (tag ∷ m) = if tag == length k then some m else none

abbrev toy_primitives : Primitives
toy_primitives = record {
  public_key = λ k. k;
  exchange = λ a b. some ((length a + length b) ∷ []);
  hkdf = λ s. s;
  seal = λ k n m. length k ∷ m;
  unseal = λ k n c. toy_unseal k c;
  b64encode = toy_b64encode;
  b64decode = λ s. some (toy_b64decode s);
}

toy_primitives-Laws : PrimitiveLaws toy_primitives
toy_primitives-Laws = record {
  length-public_key = λ k long. long;
  exchange_agrees = λ a b long drawn. ground (arith, long, drawn);
  unseal-seal = λ k n m. rw (beq_refl (length k)) refl;
  b64decode-b64encode = λ bs. ap some (decode-encode bs);
}

abbrev nonce : List ℕ
nonce = 0 ∷ 1 ∷ 2 ∷ 3 ∷ 4 ∷ 5 ∷ 6 ∷ 7 ∷ 8 ∷ 9 ∷ 10 ∷ 11 ∷ []

encrypt_for_recipient-decrypt_example :
    (envelope : CipherEnvelope) × (encrypt_for_recipient toy_primitives private_key nonce
        (104 ∷ 105 ∷ [])
        private_key
      ≡ ok envelope)
    × (decrypt_for_recipient toy_primitives envelope private_key ≡ ok (104 ∷ 105 ∷ []))
encrypt_for_recipient-decrypt_example =
    encrypt_for_recipient-decrypt toy_primitives toy_primitives-Laws private_key private_key nonce
      (104 ∷ 105 ∷ []) (64 ∷ []) refl refl refl refl
