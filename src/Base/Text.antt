-- ===== src/Base/Text.antt =====
-- Texts that the program takes apart, as lists of code points. Identifiers that it only compares
-- are native strings.
pub mod Canonical
use Prim.Native.Char.{code}
use Prim.Native.String.{String}
use Prim.Native.Nat.{ℕ, ◌+◌}
use mathlib.Core.Path.{◌≡◌, refl}
use mathlib.Core.Logic.{◌↔◌}
use mathlib.Core.Bool.{Bool, true, false, not, ◌&&◌, ◌||◌}
use mathlib.Core.List.{List, [], ◌∷◌, map}
use native.Mathlib.Omega.{arith}
use prima_next.Base.Tests.{Eq, leb, ◌==◌, nat_eq, if◌then◌else◌}

abbrev pub Text : Type 0
Text = List ℕ

abbrev pub codes : String → Text
codes String.[] = []
codes (String.◌∷◌ c s) = code c ∷ codes s

abbrev pub text_beq : Text → Text → Bool
text_beq [] [] = true
text_beq (a ∷ s) (b ∷ t) = a == b && text_beq s t
text_beq _ _ = false

pub text_beq_iff : (s t : Text) → (text_beq s t ≡ true) ↔ (s ≡ t)
text_beq_iff [] [] = ground arith
text_beq_iff [] (b ∷ t) = ground arith
text_beq_iff (a ∷ s) [] = ground arith
text_beq_iff (a ∷ s) (b ∷ t) = ground (arith, text_beq_iff s t)

instance abbrev pub text_eq : Eq Text
text_eq = record { equal = text_beq; decides = text_beq_iff }

-- `str.lower` on an ASCII text.
abbrev lower_code : ℕ → ℕ
lower_code c = if leb b'A' c && leb c b'Z' then c + 32 else c

unfoldable pub lower : Text → Text
lower = map lower_code

-- The ASCII characters that `str.split()` and `str.strip()` drop.
abbrev pub is_space : ℕ → Bool
is_space c = c == 32 || (leb 9 c && leb c 13) || (leb 28 c && leb c 31)

-- `" ".join(s.split())`: `gap` says that a separator is due before the next character.
squeeze : Bool → Bool → Text → Text
squeeze started gap [] = []
squeeze started gap (c ∷ s) =
    let space = is_space c in
    let rest = squeeze (started || not space) space s in
    if space then rest else if started && gap then 32 ∷ c ∷ rest else c ∷ rest

unfoldable pub join_split : Text → Text
unfolding squeeze
join_split = squeeze false false

-- `s.startswith(p)`
abbrev prefix_of : Text → Text → Bool
prefix_of [] s = true
prefix_of (a ∷ p) [] = false
prefix_of (a ∷ p) (b ∷ s) = a == b && prefix_of p s

-- `p in s`
unfoldable pub infix_of : Text → Text → Bool
infix_of p [] = prefix_of p []
infix_of p (c ∷ s) = prefix_of p (c ∷ s) || infix_of p s

join_split_test : join_split (codes "  a  b c ") ≡ codes "a b c"
unfolding join_split
join_split_test = refl

abbrev drop_left : Text → Text
drop_left [] = []
drop_left (c ∷ s) = let rest = drop_left s in if is_space c then rest else c ∷ s

abbrev keep_left : ℕ → Text → Text
keep_left c [] = if is_space c then [] else c ∷ []
keep_left c (d ∷ s) = c ∷ (d ∷ s)

abbrev drop_right : Text → Text
drop_right [] = []
drop_right (c ∷ s) = keep_left c (drop_right s)

-- `s.strip()`
unfoldable pub strip : Text → Text
strip s = drop_right (drop_left s)
