-- ===== src/Base/Words.antt =====
-- Numbers in bytes, as `struct` packs them, and numbers in decimal, as `str` prints them.
use Prim.Native.Char.{Char}
use Prim.Native.String.{String, ◌++◌ as concat_texts}
use auto_xdp.Base.Tests.{
  ℕ, zero, suc, ◌+◌, ◌*◌, ◌/◌, ◌%◌, ◌^◌, ◌<◌, nat_key, ◌==◌, ◌≡◌, refl, List, [], ◌∷◌, arith,
  if◌then◌else◌,
}

-- little-endian words
unfoldable pub u16_le : ℕ → ℕ → ℕ
u16_le a b = a + 2 ^ 8 * b

unfoldable pub u32_le : ℕ → ℕ → ℕ → ℕ → ℕ
u32_le a b c d = a + 2 ^ 8 * b + 2 ^ 16 * c + 2 ^ 24 * d

unfoldable pub word_le : List ℕ → ℕ
word_le [] = 0
word_le (b ∷ bytes) = b + 2 ^ 8 * word_le bytes

-- `n` bytes of a number
unfoldable pub bytes_le : ℕ → ℕ → List ℕ
bytes_le zero v = []
bytes_le (suc n) v = v % 2 ^ 8 ∷ bytes_le n (v / 2 ^ 8)

-- `socket.ntohs` on a little-endian host
unfoldable pub swap16 : ℕ → ℕ
swap16 v = v / 2 ^ 8 % 2 ^ 8 + 2 ^ 8 * (v % 2 ^ 8)

digit : ℕ → Char
digit n =
    if n == 0
    then "0"
    else if n == 1
    then "1"
    else if n == 2
    then "2"
    else if n == 3
    then "3"
    else if n == 4
    then "4"
    else if n == 5
    then "5"
    else if n == 6
    then "6"
    else if n == 7
    then "7"
    else if n == 8
    then "8"
    else "9"

-- the digits of `n` before a text; a number has at most as many digits as it counts
decimal_before : ℕ → ℕ → String → String
unfolding digit
decimal_before zero n text = text
decimal_before (suc fuel) n text =
    let more = decimal_before fuel (n / 10) (String.◌∷◌ (digit (n % 10)) text) in
    if n == 0 then text else more

-- `str(n)`
unfoldable pub decimal : ℕ → String
unfolding decimal_before
decimal n = if n == 0 then "0" else decimal_before n n ""

decimal_runs : decimal 1305 ≡ "1305"
unfolding decimal
decimal_runs = refl

-- the numbers that fit into `n` bytes
abbrev pub byte_bound : ℕ → ℕ
byte_bound zero = 1
byte_bound (suc n) = 2 ^ 8 * byte_bound n

pub word_le-bytes_le : (n v : ℕ) → v < byte_bound n → word_le (bytes_le n v) ≡ v
unfolding word_le bytes_le
word_le-bytes_le zero v h = omega arith
word_le-bytes_le (suc n) v h = omega (arith, word_le-bytes_le n (v / 2 ^ 8) (omega arith))

-- a digit of `bytes.hex`
unfoldable pub hex_digit : ℕ → Char
unfolding digit
hex_digit n =
    if n == 10
    then "a"
    else if n == 11
    then "b"
    else if n == 12
    then "c"
    else if n == 13
    then "d"
    else if n == 14
    then "e"
    else if n == 15
    then "f"
    else digit n

-- `a + b` on texts
abbrev pub text_append : String → String → String
text_append a b = concat_texts a b

-- an f-string, as the texts of its parts
unfoldable pub concat : List String → String
concat [] = ""
concat (text ∷ texts) = text_append text (concat texts)

-- `separator.join(texts)`
unfoldable pub join : String → List String → String
join separator [] = ""
join separator (text ∷ []) = text
join separator (text ∷ next ∷ texts) =
    text_append text (text_append separator (join separator (next ∷ texts)))
