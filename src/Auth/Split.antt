-- ===== src/Auth/Split.antt =====
-- apps/api/auth/token.py: a token is split where it was joined, and base64 without padding is read back.
use forensa.Prelude.{
  ℕ, zero, suc, ◌+◌, ◌-◌, ◌%◌, ◌<◌, ◌≡◌, ◌≢◌, ◌∙◌, refl, sym, ap, some, List, [], ◌∷◌, ◌++◌, length,
  All, nat_eq, arith,
}
use forensa.Auth
use forensa.Auth.{Standard}

-- Neither a dot nor a sign of padding.
abbrev pub IsLetter : ℕ → Type 0
IsLetter c = (c ≢ b'.') × (c ≢ b'=')

-- `urlsafe_b64encode` as RFC 4648 has it: letters, padded to a multiple of four, which are decoded again.
pub record Base64Laws (py : Standard) : Type 0 where
  pub letters : List ℕ → List ℕ
  pub padding : List ℕ → ℕ
  pub encode_is :
      (bs : List ℕ) → py.urlsafe_b64encode bs ≡ letters bs ++ Auth.equals_signs (padding bs)
  pub are_letters : (bs : List ℕ) → All IsLetter (letters bs)
  pub padding_small : (bs : List ℕ) → padding bs < 4
  pub padded : (bs : List ℕ) → (length (letters bs) + padding bs) % 4 ≡ 0
  pub decode_encode : (bs : List ℕ) → py.urlsafe_b64decode (py.urlsafe_b64encode bs) ≡ some bs

rstrip_equals-equals_signs : (n : ℕ) → Auth.rstrip_equals (Auth.equals_signs n) ≡ []
unfolding Auth.rstrip_equals Auth.equals_signs Auth.is_empty
rstrip_equals-equals_signs zero = refl
rstrip_equals-equals_signs (suc n) = ground (arith, rstrip_equals-equals_signs n)

pub rstrip_equals-append :
    (xs : List ℕ) (n : ℕ) → All IsLetter xs → Auth.rstrip_equals (xs ++ Auth.equals_signs n) ≡ xs
unfolding Auth.rstrip_equals Auth.is_empty
rstrip_equals-append [] n letters = rstrip_equals-equals_signs n
rstrip_equals-append (x ∷ xs) n ((_, no_sign), letters) =
    ground (arith, no_sign, rstrip_equals-append xs n letters)

split_on-letters : (xs : List ℕ) → All IsLetter xs → Auth.split_on b'.' xs ≡ xs ∷ []
unfolding Auth.split_on
split_on-letters [] letters = refl
split_on-letters (x ∷ xs) ((no_dot, _), letters) =
    ground (arith, no_dot, split_on-letters xs letters)

pub split_on-join :
    (xs ys : List ℕ)
    → All IsLetter xs
    → All IsLetter ys
    → Auth.split_on b'.' (xs ++ (b'.' ∷ ys)) ≡ xs ∷ ys ∷ []
unfolding Auth.split_on
split_on-join [] ys letters more = ground (arith, split_on-letters ys more)
split_on-join (x ∷ xs) ys ((no_dot, _), letters) more =
    ground (arith, no_dot, split_on-join xs ys letters more)

missing_padding : (len n : ℕ) → n < 4 → (len + n) % 4 ≡ 0 → (4 - len % 4) % 4 ≡ n
missing_padding len n small whole = omega (arith, small, whole)

module _ (py : Standard) (laws : Base64Laws py) where
  pub b64url_encode-letters : (bs : List ℕ) → Auth.b64url_encode py bs ≡ laws.letters bs
  unfolding Auth.b64url_encode
  b64url_encode-letters bs =
      ap Auth.rstrip_equals (laws.encode_is bs)
      ∙ rstrip_equals-append (laws.letters bs) (laws.padding bs) (laws.are_letters bs)

  pub b64url_decode-b64url_encode :
      (bs : List ℕ) → Auth.b64url_decode py (Auth.b64url_encode py bs) ≡ some bs
  unfolding Auth.b64url_decode
  b64url_decode-b64url_encode bs =
      rw
        (
          b64url_encode-letters bs,
          Auth.b64url_decode,
          missing_padding (length (laws.letters bs)) (laws.padding bs) (laws.padding_small bs)
              (laws.padded bs),
        )
        (ap py.urlsafe_b64decode (sym (laws.encode_is bs)) ∙ laws.decode_encode bs)
