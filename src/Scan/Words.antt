-- ===== src/Scan/Words.antt =====
-- The words of a line whose words and gaps are known.
use hut_karish.Prelude.{
  ℕ, ◌≡◌, ◌≢◌, refl, ap, ◌∙◌, Bool, true, not, List, [], ◌∷◌, ◌++◌, map, arith, All, all,
}
use hut_karish.Scan.Chars.{is_space}
use hut_karish.Scan.Lines.{split_words, tokens}
use hut_karish.Scan.LineFormat.{padded}

abbrev pub no_space : ℕ → Bool
no_space c = not (is_space c)

-- Some characters, none of them a space.
abbrev pub IsWord : List ℕ → Type 0
IsWord w = (w ≢ []) × (all no_space w ≡ true)

split_words-word :
    (w u : List ℕ) (ws : List (List ℕ))
    → all no_space w ≡ true
    → split_words u ≡ ([], ws)
    → split_words (w ++ u) ≡ (w, ws)
unfolding split_words
split_words-word [] u ws h e = e
split_words-word (c ∷ w) u ws h e = ground (arith, split_words-word w u ws)

tokens-word :
    (w u : List ℕ) (ws : List (List ℕ))
    → IsWord w
    → split_words u ≡ ([], ws)
    → tokens (w ++ u) ≡ w ∷ ws
unfolding tokens
tokens-word [] u ws h e = absurd (h.0 refl)
tokens-word (c ∷ w) u ws h e = rw (split_words-word (c ∷ w) u ws h.1 e)

-- Spaces in front change nothing.
tokens-spaces : (gap u : List ℕ) → all is_space gap ≡ true → tokens (gap ++ u) ≡ tokens u
unfolding tokens split_words
tokens-spaces [] u h = refl
tokens-spaces (c ∷ gap) u h = ground (arith, tokens-spaces gap u)

split_words-space : (u : List ℕ) → split_words (32 ∷ u) ≡ ([], tokens u)
unfolding split_words tokens
split_words-space u = refl

abbrev pub words_of : List (List ℕ × List ℕ) → List (List ℕ)
words_of = map λ f. f.1

-- Gaps of spaces, each in front of a word.
abbrev pub IsPadded : List (List ℕ × List ℕ) → Type 0
IsPadded = All λ f. (all is_space f.0 ≡ true) × IsWord f.1

split_words-padded :
    (fs : List (List ℕ × List ℕ)) (u : List ℕ) (ws : List (List ℕ))
    → IsPadded fs
    → split_words u ≡ ([], ws)
    → split_words (padded fs u) ≡ ([], words_of fs ++ ws)
split_words-padded [] u ws h e = e
split_words-padded ((gap, w) ∷ fs) u ws h e =
    split_words-space _
    ∙ ap (λ t. ([], t))
        (tokens-spaces gap _ h.0.0 ∙ tokens-word w _ _ h.0.1 (split_words-padded fs u ws h.1 e))

-- The words of a line are those that it was made of, and then those of the rest.
pub tokens-padded :
    (indent w rest : List ℕ) (fs : List (List ℕ × List ℕ))
    → all is_space indent ≡ true
    → IsWord w
    → IsPadded fs
    → tokens (indent ++ (w ++ padded fs (32 ∷ rest))) ≡ w ∷ (words_of fs ++ tokens rest)
tokens-padded indent w rest fs spaces word fields =
    tokens-spaces indent _ spaces
    ∙ tokens-word w _ _ word (split_words-padded fs _ _ fields (split_words-space rest))
