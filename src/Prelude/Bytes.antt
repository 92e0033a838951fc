-- ===== src/Prelude/Bytes.antt =====
-- Unsigned words as bytes in memory, least significant byte first.
use Prim.Native.Nat.{ℕ, ◌+◌, ◌*◌, ◌/◌, ◌%◌, ◌^◌, ◌<◌}
use mathlib.Core.Path.{◌≡◌}
use mathlib.Core.List.{List, [], ◌∷◌}
use native.Mathlib.Omega.{arith}
use hut_karish.Prelude.Lists.{get_or}

unfoldable pub word_16 : ℕ → List ℕ
word_16 n = (n % 256) ∷ ((n / 256) % 256) ∷ []

unfoldable pub word_32 : ℕ → List ℕ
word_32 n = (n % 256) ∷ ((n / 256) % 256) ∷ ((n / 65536) % 256) ∷ ((n / 16777216) % 256) ∷ []

-- The word that stands at an offset of a buffer.
unfoldable pub read_16 : List ℕ → ℕ → ℕ
read_16 b i = get_or b i 0 + 256 * get_or b (i + 1) 0

unfoldable pub read_32 : List ℕ → ℕ → ℕ
read_32 b i =
    get_or b i 0
    + 256 * get_or b (i + 1) 0
    + 65536 * get_or b (i + 2) 0
    + 16777216 * get_or b (i + 3) 0

pub digits_16 : (n : ℕ) → n < 2 ^ 16 → n % 256 + 256 * ((n / 256) % 256) ≡ n
digits_16 n h = omega arith

pub digits_32 :
    (n : ℕ)
    → n < 2 ^ 32
    → n % 256
        + 256 * ((n / 256) % 256)
        + 65536 * ((n / 65536) % 256)
        + 16777216 * ((n / 16777216) % 256)
      ≡ n
digits_32 n h = omega arith
