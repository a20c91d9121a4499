-- ===== src/Base/Words.antt =====
-- `text.split()` and `" ".join(words)`: a text as its words.
use Prim.Native.Nat.{ℕ}
use mathlib.Core.Path.{◌≡◌, refl, sym, ap, ◌∙◌}
use mathlib.Core.Bool.{false}
use mathlib.Core.List.{List, [], ◌∷◌, ◌++◌, append-nil, append_assoc}
use prima_next.Base.Tests.{nat_eq, if◌then◌else◌, if-cases}
use prima_next.Base.Lists.{All, All-append, is_empty}
use prima_next.Base.Text.{Text, is_space}

-- A word that has just ended, unless it is empty.
abbrev flush : Text → List Text → List Text
flush [] ws = ws
flush (c ∷ w) ws = (c ∷ w) ∷ ws

-- The words of a text, after the part of a word that was read.
words_from : Text → Text → List Text
words_from w [] = flush w []
words_from w (c ∷ s) =
    let ended = flush w (words_from [] s) in
    let longer = words_from (w ++ (c ∷ [])) s in if is_space c then ended else longer

unfoldable pub words : Text → List Text
unfolding words_from
words = words_from []

unfoldable pub join_words : List Text → Text
join_words [] = []
join_words (w ∷ []) = w
join_words (w ∷ (v ∷ ws)) = w ++ (32 ∷ join_words (v ∷ ws))

-- A word is not empty and holds no white space.
abbrev pub IsWord : Text → Type 0
IsWord w = (is_empty w ≡ false) × All (λ c. is_space c ≡ false) w

flush-words :
    (w : Text) (ws : List Text)
    → All (λ c. is_space c ≡ false) w
    → All IsWord ws
    → All IsWord (flush w ws)
flush-words [] ws h k = k
flush-words (c ∷ w) ws h k = ((refl, h), k)

words_from-words : (w s : Text) → All (λ c. is_space c ≡ false) w → All IsWord (words_from w s)
unfolding words_from
words_from-words w [] h = flush-words w [] h tt
words_from-words w (c ∷ s) h =
    if-cases (All IsWord) (is_space c)
      (λ gap. flush-words w (words_from [] s) h (words_from-words [] s tt))
      (λ other.
        words_from-words (w ++ (c ∷ [])) s
          (All-append (λ (d : ℕ). is_space d ≡ false) w (c ∷ []) h (other, tt)))

pub words-IsWord : (s : Text) → All IsWord (words s)
unfolding words
words-IsWord s = words_from-words [] s tt

-- The letters of a word are read into the word.
words_from-letters :
    (w v s : Text) → All (λ c. is_space c ≡ false) v → words_from w (v ++ s) ≡ words_from (w ++ v) s
unfolding words_from
words_from-letters w [] s h = ap (λ u. words_from u s) (sym (append-nil w))
words_from-letters w (c ∷ v) s h =
    rw (h.0, words_from)
      (words_from-letters (w ++ (c ∷ [])) v s h.1
        ∙ ap (λ u. words_from u s) (append_assoc w (c ∷ []) v))

flush-word : (w : Text) (ws : List Text) → is_empty w ≡ false → flush w ws ≡ w ∷ ws
flush-word [] ws h = cc
flush-word (c ∷ w) ws h = refl

-- The words of a joined text are the words joined.
pub words-join_words : (ws : List Text) → All IsWord ws → words (join_words ws) ≡ ws
unfolding words join_words words_from
words-join_words [] h = refl
words-join_words (w ∷ []) h =
    ap words (sym (append-nil w)) ∙ (words_from-letters [] w [] h.0.1 ∙ flush-word w [] h.0.0)
words-join_words (w ∷ (v ∷ ws)) h =
    words_from-letters [] w (32 ∷ join_words (v ∷ ws)) h.0.1
    ∙ (flush-word w (words (join_words (v ∷ ws))) h.0.0
        ∙ ap (λ us. w ∷ us) (words-join_words (v ∷ ws) h.1))
