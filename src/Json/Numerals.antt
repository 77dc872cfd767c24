-- ===== src/Json/Numerals.antt =====
-- Decimal numerals and quoted texts can be read back, whatever follows them.
use Prim.Native.Char.{code}
use text.Mathlib.TextEquality.{Char-path}
use forensa.Prelude.{
  ℕ, zero, suc, ◌+◌, ◌-◌, ◌*◌, ◌/◌, ◌%◌, ◌<◌, ◌≡◌, refl, sym, ap, ◌∙◌, Bool, true, not, ◌&&◌,
  Option, none, some, String, List, [], ◌∷◌, ltb, leb, nat_beq, if◌then◌else◌, arith,
}
use forensa.Json.{ℤ, pos, negsuc, digits_from, digits, escape_char, escape, quote, write_int}

abbrev pub is_digit : ℕ → Bool
is_digit c = leb 48 c && leb c 57

-- A text that does not go on with a digit.
abbrev pub ends : List ℕ → Bool
ends [] = true
ends (c ∷ r) = not (is_digit c)

read_digits : ℕ → List ℕ → ℕ × List ℕ
read_digits acc [] = (acc, [])
read_digits acc (c ∷ r) =
    let more = read_digits (acc * 10 + (c - 48)) r in if is_digit c then more else (acc, c ∷ r)

read_digits-ends : (n : ℕ) (r : List ℕ) → ends r ≡ true → read_digits n r ≡ (n, r)
unfolding read_digits
read_digits-ends n [] h = refl
read_digits-ends n (c ∷ r) h = ground arith

read_digits-digits_from :
    (f n : ℕ) (r : List ℕ) → n < f → read_digits 0 (digits_from f n r) ≡ read_digits n r
unfolding read_digits digits_from
read_digits-digits_from zero n r h = absurd (omega arith)
read_digits-digits_from (suc f) n r h =
    ground (arith, read_digits-digits_from f (n / 10) ((48 + n % 10) ∷ r))

read_digits-digits : (n : ℕ) (r : List ℕ) → ends r ≡ true → read_digits 0 (digits n r) ≡ (n, r)
unfolding digits
read_digits-digits n r h =
    read_digits-digits_from (suc n) n r (omega arith) ∙ read_digits-ends n r h

pub digits_unique :
    (n m : ℕ) (r s : List ℕ)
    → ends r ≡ true
    → ends s ≡ true
    → digits n r ≡ digits m s
    → (n ≡ m) × (r ≡ s)
digits_unique n m r s hr hs h =
    let e = sym (read_digits-digits n r hr) ∙ ap (read_digits 0) h ∙ read_digits-digits m s hs in
    (ap (λ p. p.0) e, ap (λ p. p.1) e)

-- The inverse of `escape_char`.
unhex : ℕ → ℕ
unhex d = if ltb d 58 then d - 48 else d - 87

unescape_hex : List ℕ → Option (ℕ × List ℕ)
unfolding unhex
unescape_hex (a ∷ b ∷ c ∷ d ∷ r) = some ((c - 48) * 16 + unhex d, r)
unescape_hex _ = none

unescape_tail : List ℕ → Option (ℕ × List ℕ)
unfolding unescape_hex
unescape_tail [] = none
unescape_tail (x ∷ r) =
    if nat_beq x 117
    then unescape_hex r
    else if nat_beq x 110
    then some (10, r)
    else if nat_beq x 114
    then some (13, r)
    else if nat_beq x 116
    then some (9, r)
    else if nat_beq x 102
    then some (12, r)
    else if nat_beq x 98
    then some (8, r)
    else some (x, r)

unescape_char : List ℕ → Option (ℕ × List ℕ)
unfolding unescape_tail
unescape_char [] = none
unescape_char (c ∷ r) = if nat_beq c 92 then unescape_tail r else some (c, r)

unescape_char-escape_char : (c : ℕ) (r : List ℕ) → unescape_char (escape_char c r) ≡ some (c, r)
unfolding unescape_char escape_char
unescape_char-escape_char c r = ground arith

escape_char_injective :
    (c d : ℕ) (r s : List ℕ) → escape_char c r ≡ escape_char d s → (c ≡ d) × (r ≡ s)
escape_char_injective c d r s h =
    let e : some (c, r) ≡ some (d, s) =
      sym (unescape_char-escape_char c r) ∙ ap unescape_char h ∙ unescape_char-escape_char d s in
    (cc e, cc e)

escape_char_no_quote : (c : ℕ) (r s : List ℕ) → escape_char c r ≡ 34 ∷ s → ⊥
unfolding escape_char
escape_char_no_quote c r s h = ground arith

escape_unique :
    (s t : String) (r q : List ℕ) → escape s (34 ∷ r) ≡ escape t (34 ∷ q) → (s ≡ t) × (r ≡ q)
unfolding escape
escape_unique String.[] String.[] r q h = (refl, cc h)
escape_unique String.[] (String.◌∷◌ d t) r q h =
    absurd (escape_char_no_quote (code d) (escape t (34 ∷ q)) r (sym h))
escape_unique (String.◌∷◌ c s) String.[] r q h =
    absurd (escape_char_no_quote (code c) (escape s (34 ∷ r)) q h)
escape_unique (String.◌∷◌ c s) (String.◌∷◌ d t) r q h =
    let (e, more) = escape_char_injective (code c) (code d) _ _ h in
    let (p, k) = escape_unique s t r q more in (cc (Char-path c d e, p), k)

pub quote_unique : (s t : String) (r q : List ℕ) → quote s r ≡ quote t q → (s ≡ t) × (r ≡ q)
unfolding quote
quote_unique s t r q h = escape_unique s t r q (cc h)

-- The first character of a decimal numeral is a digit.
unfoldable pub first : List ℕ → ℕ
first [] = 0
first (c ∷ r) = c

first-digits_from : (f n : ℕ) (r : List ℕ) → n < f → is_digit (first (digits_from f n r)) ≡ true
unfolding first digits_from
first-digits_from zero n r h = absurd (omega arith)
first-digits_from (suc f) n r h = ground (arith, first-digits_from f (n / 10) ((48 + n % 10) ∷ r))

pub first-digits : (n : ℕ) (r : List ℕ) → is_digit (first (digits n r)) ≡ true
unfolding digits
first-digits n r = first-digits_from (suc n) n r (omega arith)

pub write_int_unique :
    (a b : ℤ) (r s : List ℕ)
    → ends r ≡ true
    → ends s ≡ true
    → write_int a r ≡ write_int b s
    → (a ≡ b) × (r ≡ s)
unfolding write_int first
write_int_unique (pos n) (pos m) r s hr hs h =
    let (p, q) = digits_unique n m r s hr hs h in (ap pos p, q)
write_int_unique (negsuc n) (negsuc m) r s hr hs h =
    let (p, q) = digits_unique (suc n) (suc m) r s hr hs (cc h) in (cc (p), q)
write_int_unique (pos n) (negsuc m) r s hr hs h = ground (arith, first-digits n r, ap first h)
write_int_unique (negsuc n) (pos m) r s hr hs h = ground (arith, first-digits m s, ap first h)
