-- ===== src/NetLink/Text.antt =====
-- Texts in fixed buffers: what strncpy writes, and what a C function reads back.
use hut_karish.Prelude.{
  ℕ, zero, suc, ◌-◌, ◌≤◌, ◌≡◌, ◌≢◌, refl, ap, List, [], ◌∷◌, ◌++◌, arith, ◌==◌, if◌then◌else◌,
  length, take, replicate, All,
}

-- The characters before the first NUL, or all.
unfoldable pub c_string : List ℕ → List ℕ
c_string [] = []
c_string (c ∷ cs) = let rest = c_string cs in if c == 0 then [] else c ∷ rest

-- strncpy(data, text, n) into memory: the text up to its NUL, and NULs up to `n` bytes.
unfoldable pub strncpy : ℕ → List ℕ → List ℕ
unfolding c_string
strncpy n text = let s = take n (c_string text) in s ++ replicate (n - length s) 0

-- A text with no NUL in it.
abbrev pub IsText : List ℕ → Type 0
IsText = All (λ c. c ≢ 0)

pub c_string-IsText : (cs : List ℕ) → IsText (c_string cs)
unfolding c_string
c_string-IsText [] = tt
c_string-IsText (c ∷ cs) = ground (arith, c_string-IsText cs)

pub IsText-take : (n : ℕ) (cs : List ℕ) → IsText cs → IsText (take n cs)
IsText-take n [] h = tt
IsText-take zero (c ∷ cs) h = tt
IsText-take (suc n) (c ∷ cs) h = (h.0, IsText-take n cs h.1)

-- A text in front of a NUL, or alone, is read back.
pub c_string-append : (cs rest : List ℕ) → IsText cs → c_string (cs ++ 0 ∷ rest) ≡ cs
unfolding c_string
c_string-append [] rest h = refl
c_string-append (c ∷ cs) rest h = ground (arith, c_string-append cs rest h.1)

pub c_string_of_text : (cs : List ℕ) → IsText cs → c_string cs ≡ cs
unfolding c_string
c_string_of_text [] h = refl
c_string_of_text (c ∷ cs) h = ground (arith, c_string_of_text cs h.1)

pub take_all : (n : ℕ) (cs : List ℕ) → length cs ≤ n → take n cs ≡ cs
take_all n [] h = refl
take_all zero (c ∷ cs) h = absurd (omega arith)
take_all (suc n) (c ∷ cs) h = ap (◌∷◌ c) (take_all n cs (omega arith))
