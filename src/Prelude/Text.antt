-- ===== src/Prelude/Text.antt =====
-- `str.strip()` as the code uses it, to refuse a text of white space alone; and `str` of a UUID.
use Prim.Native.Nat.{ℕ, zero, suc, ◌/◌, ◌%◌, ◌^◌}
use Prim.Native.Char.{Char, code}
use Prim.Native.String.{String, char_at}
use mathlib.Core.Bool.{Bool, true, ◌&&◌, ◌||◌}
use forensa.Prelude.Tests.{leb, ltb, nat_beq, if◌then◌else◌}

-- `str.isspace()` of one character.
unfoldable pub is_space : ℕ → Bool
is_space c =
    (leb 9 c && leb c 13)
    || (leb 28 c && leb c 32)
    || nat_beq c 133
    || nat_beq c 160
    || nat_beq c 5760
    || (leb 8192 c && leb c 8202)
    || (leb 8232 c && leb c 8233)
    || nat_beq c 8239
    || nat_beq c 8287
    || nat_beq c 12288

-- `not s or not s.strip()`
unfoldable pub is_blank : String → Bool
unfolding is_space
is_blank String.[] = true
is_blank (String.◌∷◌ c s) = is_space (code c) && is_blank s

hex_char : ℕ → Char
hex_char d = char_at "0123456789abcdef" d

-- The last `count` hexadecimal digits of `n`, before the rest.
unfoldable pub hex_text : ℕ → ℕ → String → String
unfolding hex_char
hex_text zero n rest = rest
hex_text (suc count) n rest = hex_text count (n / 16) (String.◌∷◌ (hex_char (n % 16)) rest)

dash : Char
dash = char_at "-" 0

-- `str(uuid)`: 32 digits in groups of 8, 4, 4, 4 and 12.
unfoldable pub uuid_str : ℕ → String
unfolding hex_text dash
uuid_str n = hex_text 8 (n / 16 ^ 24) (
    String.◌∷◌ dash (
      hex_text 4 (n / 16 ^ 20) (
        String.◌∷◌ dash (
          hex_text 4 (n / 16 ^ 16)
            (String.◌∷◌ dash (hex_text 4 (n / 16 ^ 12) (String.◌∷◌ dash (hex_text 12 n ""))))))))

decimal_char : ℕ → Char
decimal_char d = char_at "0123456789" d

-- The decimal numeral before the rest: a number has fewer digits than the number above it.
decimal : ℕ → ℕ → String → String
decimal zero n rest = rest
decimal (suc f) n rest =
    let more = decimal f (n / 10) (String.◌∷◌ (decimal_char (n % 10)) rest) in
    if ltb n 10 then String.◌∷◌ (decimal_char n) rest else more

-- `str(n)`
unfoldable pub nat_text : ℕ → String
unfolding decimal decimal_char
nat_text n = decimal (suc n) n ""
