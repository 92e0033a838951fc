-- ===== src/Scan/Numbers.antt =====
-- Numbers in the text of /proc: std::stoul in base 16 and std::stoi.
use hut_karish.Prelude.{
  ℕ, ◌+◌, ◌-◌, ◌*◌, ◌/◌, ◌%◌, ◌^◌, ◌<◌, ◌≡◌, ap, ◌∙◌, false, ◌&&◌, ◌||◌, List, [], ◌∷◌, Option,
  none, some, ◌>>=◌, arith, ltb, leb, ◌==◌, if◌then◌else◌,
}
use hut_karish.Scan.Chars.{is_digit}

-- The value of a hexadecimal digit of either case.
unfoldable pub hex_digit : ℕ → Option ℕ
hex_digit c =
    if is_digit c
    then some (c - b'0')
    else if leb b'A' c && leb c b'F'
    then some (c - b'A' + 10)
    else if leb b'a' c && leb c b'f'
    then some (c - b'a' + 10)
    else none

-- The digits up to the first character that is none.
unfoldable pub hex_value : ℕ → List ℕ → ℕ
hex_value n [] = n
hex_value n (c ∷ cs) = elim (hex_digit c) [ none ↦ n | some d ↦ hex_value (n * 16 + d) cs ]

-- A number begins: `none` is the exception invalid_argument.
unfoldable pub hex_number : List ℕ → Option ℕ
hex_number [] = none
hex_number (c ∷ cs) = hex_digit c >>= λ d. some (hex_value d cs)

-- std::stoul(text, nullptr, 16) of a text of word characters: `0x` may stand in front of a digit.
unfoldable pub stoul_16 : List ℕ → Option ℕ
stoul_16 (z ∷ x ∷ d ∷ cs) =
    if z == b'0' && (x == b'x' || x == b'X')
    then elim (hex_number (d ∷ cs)) [ none ↦ some 0 | some n ↦ some n ]
    else hex_number (z ∷ x ∷ d ∷ cs)
stoul_16 cs = hex_number cs

unfoldable pub decimal : ℕ → List ℕ → ℕ
decimal n [] = n
decimal n (c ∷ cs) = decimal (n * 10 + (c - b'0')) cs

-- std::stoi of a text of digits: `none` is an exception, for no digit or a value above INT_MAX.
unfoldable pub stoi : List ℕ → Option ℕ
unfolding decimal
stoi [] = none
stoi (c ∷ cs) = let n = decimal 0 (c ∷ cs) in if ltb n (2 ^ 31) then some n else none

-- %X of a digit, and %04X of a port, as the kernel prints them.
abbrev pub upper_hex : ℕ → ℕ
upper_hex d = if ltb d 10 then b'0' + d else b'A' + (d - 10)

abbrev pub print_port : ℕ → List ℕ
print_port n =
    upper_hex (n / 4096 % 16)
    ∷ upper_hex (n / 256 % 16)
    ∷ upper_hex (n / 16 % 16)
    ∷ upper_hex (n % 16)
    ∷ []

hex_digit-upper_hex : (d : ℕ) → d < 16 → hex_digit (upper_hex d) ≡ some d
unfolding hex_digit
hex_digit-upper_hex d h = ground arith

no_prefix : (a d : ℕ) → d < 16 → (a == b'0' && (upper_hex d == b'x' || upper_hex d == b'X')) ≡ false
no_prefix a d h = ground arith

hex_number_four :
    (a b c d : ℕ)
    → a < 16
    → b < 16
    → c < 16
    → d < 16
    → hex_number (upper_hex a ∷ upper_hex b ∷ upper_hex c ∷ upper_hex d ∷ [])
      ≡ some (((a * 16 + b) * 16 + c) * 16 + d)
unfolding hex_number hex_value
hex_number_four a b c d ha hb hc hd = ground (
  arith,
  hex_digit-upper_hex a ha,
  hex_digit-upper_hex b hb,
  hex_digit-upper_hex c hc,
  hex_digit-upper_hex d hd,
)

-- A port as the kernel prints it, with %04X, is read back.
pub stoul_16-print_port : (n : ℕ) → n < 2 ^ 16 → stoul_16 (print_port n) ≡ some n
unfolding stoul_16
stoul_16-print_port n h = rw (no_prefix (upper_hex (n / 4096 % 16)) (n / 256 % 16) (omega arith)) (
    hex_number_four (n / 4096 % 16) (n / 256 % 16) (n / 16 % 16) (n % 16) (omega arith)
      (omega arith) (omega arith) (omega arith)
    ∙ ap some (omega arith))
