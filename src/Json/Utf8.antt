-- ===== src/Json/Utf8.antt =====
-- UTF-8 loses nothing: a decoder for one character, and what follows from it for texts.
use forensa.Prelude.{
  ℕ, ◌+◌, ◌-◌, ◌*◌, ◌≡◌, refl, sym, ap, ◌∙◌, Option, none, some, List, [], ◌∷◌, ltb, if◌then◌else◌,
  arith,
}
use forensa.Json.{utf8_char, utf8}

-- The first character of an encoded text, and what follows it.
decode_char : List ℕ → Option (ℕ × List ℕ)
decode_char [] = none
decode_char (a ∷ []) = some (a, [])
decode_char (a ∷ b ∷ []) =
    if ltb a 128 then some (a, b ∷ []) else some ((a - 192) * 64 + (b - 128), [])
decode_char (a ∷ b ∷ c ∷ []) =
    if ltb a 128
    then some (a, b ∷ c ∷ [])
    else if ltb a 224
    then some ((a - 192) * 64 + (b - 128), c ∷ [])
    else some ((a - 224) * 4096 + (b - 128) * 64 + (c - 128), [])
decode_char (a ∷ b ∷ c ∷ d ∷ r) =
    if ltb a 128
    then some (a, b ∷ c ∷ d ∷ r)
    else if ltb a 224
    then some ((a - 192) * 64 + (b - 128), c ∷ d ∷ r)
    else if ltb a 240
    then some ((a - 224) * 4096 + (b - 128) * 64 + (c - 128), d ∷ r)
    else some ((a - 240) * 262144 + (b - 128) * 4096 + (c - 128) * 64 + (d - 128), r)

decode_char-utf8_char : (c : ℕ) (r : List ℕ) → decode_char (utf8_char c r) ≡ some (c, r)
unfolding decode_char utf8_char
decode_char-utf8_char c [] = ground arith
decode_char-utf8_char c (x ∷ []) = ground arith
decode_char-utf8_char c (x ∷ y ∷ []) = ground arith
decode_char-utf8_char c (x ∷ y ∷ z ∷ r) = ground arith

utf8_char_injective : (c d : ℕ) (r s : List ℕ) → utf8_char c r ≡ utf8_char d s → (c ≡ d) × (r ≡ s)
utf8_char_injective c d r s h =
    let e : some (c, r) ≡ some (d, s) =
      sym (decode_char-utf8_char c r) ∙ ap decode_char h ∙ decode_char-utf8_char d s in
    (cc e, cc e)

utf8_char_nonempty : (c : ℕ) (r : List ℕ) → utf8_char c r ≡ [] → ⊥
unfolding utf8_char
utf8_char_nonempty c r h = ground arith

pub utf8_injective : (s t : List ℕ) → utf8 s ≡ utf8 t → s ≡ t
unfolding utf8
utf8_injective [] [] h = refl
utf8_injective [] (d ∷ t) h = absurd (utf8_char_nonempty d (utf8 t) (sym h))
utf8_injective (c ∷ s) [] h = absurd (utf8_char_nonempty c (utf8 s) h)
utf8_injective (c ∷ s) (d ∷ t) h =
    let (p, q) = utf8_char_injective c d (utf8 s) (utf8 t) h in cc (p, utf8_injective s t q)
