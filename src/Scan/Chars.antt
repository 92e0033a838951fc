-- ===== src/Scan/Chars.antt =====
-- Classes of characters, in the C locale.
use hut_karish.Prelude.{ℕ, Bool, ◌&&◌, ◌||◌, ◌==◌, leb}

abbrev pub is_digit : ℕ → Bool
is_digit c = leb b'0' c && leb c b'9'

-- [0-9A-F]
abbrev pub is_upper_hex : ℕ → Bool
is_upper_hex c = is_digit c || (leb b'A' c && leb c b'F')

-- \s, and what `>>` skips: space, and tab up to carriage return.
abbrev pub is_space : ℕ → Bool
is_space c = c == 32 || (leb 9 c && leb c 13)

-- \w
abbrev pub is_word : ℕ → Bool
is_word c = is_digit c || (leb b'A' c && leb c b'Z') || (leb b'a' c && leb c b'z') || c == b'_'
