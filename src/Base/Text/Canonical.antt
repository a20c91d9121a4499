-- ===== src/Base/Text/Canonical.antt =====
-- Stripping and lower-casing a text a second time changes nothing.
use prima_next.Base.{
  ◌||◌, is_empty, not, ◌++◌, ℕ, ◌≡◌, refl, ap, ◌∙◌, Bool, true, false, nat_eq, [], ◌∷◌, arith,
  if◌then◌else◌,
}
use prima_next.Base.Text.{
  codes, join_split, squeeze, Text, lower_code, lower, is_space, drop_left, keep_left, drop_right,
  strip,
}

lower_code_idem : (c : ℕ) → lower_code (lower_code c) ≡ lower_code c
lower_code_idem c = ground arith

lower_idem : (s : Text) → lower (lower s) ≡ lower s
unfolding lower
lower_idem [] = refl
lower_idem (c ∷ s) = ap2 (lower_code_idem c) (lower_idem s)
  where
    ap2 : {c d : ℕ} {s t : Text} → c ≡ d → s ≡ t → (c ∷ s) ≡ (d ∷ t)
    ap2 e f = cc

is_space-lower_code : (c : ℕ) → is_space (lower_code c) ≡ is_space c
is_space-lower_code c = ground arith

drop_left-lower : (s : Text) → drop_left (lower s) ≡ lower (drop_left s)
unfolding lower
drop_left-lower [] = refl
drop_left-lower (c ∷ s) = ground (arith, is_space-lower_code c, drop_left-lower s)

keep_left-lower : (c : ℕ) (s : Text) → keep_left (lower_code c) (lower s) ≡ lower (keep_left c s)
unfolding lower
keep_left-lower c [] = ground (arith, is_space-lower_code c)
keep_left-lower c (d ∷ s) = refl

drop_right-lower : (s : Text) → drop_right (lower s) ≡ lower (drop_right s)
unfolding lower
drop_right-lower [] = refl
drop_right-lower (c ∷ s) =
    ap (keep_left (lower_code c)) (drop_right-lower s) ∙ keep_left-lower c (drop_right s)

drop_right_idem : (s : Text) → drop_right (drop_right s) ≡ drop_right s
drop_right_idem [] = refl
drop_right_idem (c ∷ s) = kept c (drop_right s) (drop_right_idem s)
  where
    kept : (c : ℕ) (t : Text) → drop_right t ≡ t → drop_right (keep_left c t) ≡ keep_left c t
    kept c [] h = ground arith
    kept c (d ∷ t) h = rw h refl

-- A text that starts with no space.
starts : Text → Bool
starts [] = true
starts (c ∷ s) = if is_space c then false else true

drop_left-starts : (s : Text) → starts (drop_left s) ≡ true
unfolding starts
drop_left-starts [] = refl
drop_left-starts (c ∷ s) = ground (arith, drop_left-starts s)

keep_left-starts : (c : ℕ) (t : Text) → is_space c ≡ false → starts (keep_left c t) ≡ true
unfolding starts
keep_left-starts c [] h = ground arith
keep_left-starts c (d ∷ t) h = ground arith

drop_right-starts : (s : Text) → starts s ≡ true → starts (drop_right s) ≡ true
unfolding starts
drop_right-starts [] h = refl
drop_right-starts (c ∷ s) h = keep_left-starts c (drop_right s) (ground arith)

starts-drop_left : (s : Text) → starts s ≡ true → drop_left s ≡ s
unfolding starts
starts-drop_left [] h = refl
starts-drop_left (c ∷ s) h = ground arith

strip_idem : (s : Text) → strip (strip s) ≡ strip s
unfolding strip
strip_idem s =
    ap drop_right
      (starts-drop_left (strip s) (drop_right-starts (drop_left s) (drop_left-starts s)))
    ∙ drop_right_idem (drop_left s)

strip-lower : (s : Text) → strip (lower s) ≡ lower (strip s)
unfolding strip
strip-lower s = ap drop_right (drop_left-lower s) ∙ drop_right-lower (drop_left s)

-- `str.strip().lower()` is idempotent.
pub lower-strip_idem : (s : Text) → lower (strip (lower (strip s))) ≡ lower (strip s)
lower-strip_idem s =
    ap lower (strip-lower (strip s) ∙ ap lower (strip_idem s)) ∙ lower_idem (strip s)

squeeze-nonempty :
    (started gap : Bool) (s : Text)
    → is_empty (squeeze started gap (s ++ codes " supporting evidence")) ≡ false
unfolding squeeze
squeeze-nonempty false false [] = refl
squeeze-nonempty false true [] = refl
squeeze-nonempty true false [] = refl
squeeze-nonempty true true [] = refl
squeeze-nonempty started gap (c ∷ s) =
    ground (arith, squeeze-nonempty (started || not (is_space c)) (is_space c) s)

-- A text with a word at its end has one after splitting and joining.
pub join_split-nonempty :
    (s : Text) → is_empty (join_split (s ++ codes " supporting evidence")) ≡ false
unfolding join_split
join_split-nonempty s = squeeze-nonempty false false s
