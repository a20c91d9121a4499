-- ===== src/Base/Names.antt =====
-- `sorted(set(names))`: texts in the order of their code points, each once.
use Prim.Native.Nat.{ℕ, compare, Ordering}
use mathlib.Core.Bool.{Bool, true, false, ◌||◌}
use mathlib.Core.List.{List, [], ◌∷◌}
use mathlib.Core.Path.{◌≡◌, refl}
use native.Mathlib.Omega.{arith}
use prima_next.Base.Lists.{is_empty}
use prima_next.Base.Text.{Text}

-- Where the next pair of code points is equal the rest decides.
abbrev then_compare : Ordering → Ordering → Ordering
then_compare Ordering.lt o = Ordering.lt
then_compare Ordering.eq o = o
then_compare Ordering.gt o = Ordering.gt

abbrev pub compare_text : Text → Text → Ordering
compare_text [] [] = Ordering.eq
compare_text [] (b ∷ t) = Ordering.lt
compare_text (a ∷ s) [] = Ordering.gt
compare_text (a ∷ s) (b ∷ t) = then_compare (compare a b) (compare_text s t)

insert_name : Text → List Text → List Text
insert_name a [] = a ∷ []
insert_name a (b ∷ bs) = elim (compare_text a b) [
  | Ordering.lt ↦ a ∷ (b ∷ bs)
  | Ordering.eq ↦ b ∷ bs
  | Ordering.gt ↦ b ∷ insert_name a bs
]

unfoldable pub sorted_set : List Text → List Text
unfolding insert_name
sorted_set [] = []
sorted_set (a ∷ bs) = insert_name a (sorted_set bs)

insert_name-not_empty : (a : Text) (xs : List Text) → is_empty (insert_name a xs) ≡ false
unfolding insert_name
insert_name-not_empty a [] = refl
insert_name-not_empty a (b ∷ bs) = ground arith

pub sorted_set-not_empty : (a : Text) (xs : List Text) → is_empty (sorted_set (a ∷ xs)) ≡ false
unfolding sorted_set
sorted_set-not_empty a xs = insert_name-not_empty a (sorted_set xs)

-- `a <= b` on texts.
abbrev pub text_leb : Text → Text → Bool
text_leb a b = elim (compare_text a b) [ Ordering.gt ↦ false | _ ↦ true ]

abbrev opposite : Ordering → Ordering
opposite Ordering.lt = Ordering.gt
opposite Ordering.eq = Ordering.eq
opposite Ordering.gt = Ordering.lt

opposite-then :
    (o q : Ordering) → opposite (then_compare o q) ≡ then_compare (opposite o) (opposite q)
opposite-then Ordering.lt q = refl
opposite-then Ordering.eq q = refl
opposite-then Ordering.gt q = refl

compare-opposite : (a b : ℕ) → compare b a ≡ opposite (compare a b)
compare-opposite a b = ground arith

pub compare_text-opposite : (s t : Text) → compare_text t s ≡ opposite (compare_text s t)
compare_text-opposite [] [] = refl
compare_text-opposite [] (b ∷ t) = refl
compare_text-opposite (a ∷ s) [] = refl
compare_text-opposite (a ∷ s) (b ∷ t) =
    rw (opposite-then, compare-opposite a b, compare_text-opposite s t) refl

compare-eq : (a b : ℕ) → compare a b ≡ Ordering.eq → a ≡ b
compare-eq a b h = ground arith

pub compare_text-eq : (s t : Text) → compare_text s t ≡ Ordering.eq → s ≡ t
compare_text-eq [] [] h = refl
compare_text-eq [] (b ∷ t) h = cc
compare_text-eq (a ∷ s) [] h = cc
compare_text-eq (a ∷ s) (b ∷ t) h = ground (arith, compare-eq a b, compare_text-eq s t)

-- Two texts are ordered one way or the other, and both ways only if they are equal.
pub text_leb-total : (s t : Text) → (text_leb s t || text_leb t s) ≡ true
text_leb-total s t = ground (arith, compare_text-opposite s t)

pub text_leb-antisym : (s t : Text) → text_leb s t ≡ true → text_leb t s ≡ true → s ≡ t
text_leb-antisym s t h k = ground (arith, compare_text-opposite s t, compare_text-eq s t)
