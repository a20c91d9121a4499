-- ===== src/Base/Keys.antt =====
-- The keys that `dict.fromkeys` keeps, and values that a dictionary holds.
use mathlib.Core.Path.{◌≡◌, refl, subst}
use mathlib.Core.Logic.{inl, inr}
use mathlib.Core.Bool.{Bool, true, false, not, ◌&&◌}
use mathlib.Core.Option.{Option, none, some}
use mathlib.Core.List.{List, [], ◌∷◌}
use native.Mathlib.Omega.{arith}
use prima_next.Base.Tests.{Eq, ◌==◌, if-cases, Bool-cases}
use prima_next.Base.Lists.{All, elem, IsNodup, filter_by, fresh_keys}
use prima_next.Base.Dict.{Dict, lookup}

-- A value that may be missing satisfies P.
abbrev pub Holds {ℓ κ} : {A : Type ℓ} → (A → Type κ) → Option A → Type κ
Holds P none = Unit
Holds P (some a) = P a

pub All-imp {ℓ κ μ} :
    {A : Type ℓ} (P : A → Type κ) (Q : A → Type μ) (xs : List A)
    → ((x : A) → P x → Q x)
    → All P xs
    → All Q xs
All-imp P Q [] f h = tt
All-imp P Q (x ∷ xs) f h = (f x h.0, All-imp P Q xs f h.1)

module _ {ℓ} {A : Type ℓ} ⦃e : Eq A⦄ where
  pub All-self : (xs : List A) → All (λ x. elem x xs ≡ true) xs
  All-self [] = tt
  All-self (x ∷ xs) = (
    ground (arith, e.decides x x),
    All-imp (λ y. elem y xs ≡ true) (λ y. elem y (x ∷ xs) ≡ true) xs (λ y h. ground arith)
        (All-self xs),
  )

  pub All-elem {κ} : (P : A → Type κ) (a : A) (xs : List A) → All P xs → elem a xs ≡ true → P a
  All-elem P a [] h m = cc
  All-elem P a (x ∷ xs) h m = elim (Bool-cases (x == a)) [
    | inl same ↦ subst P ((e.decides x a).0 same) h.0
    | inr other ↦ All-elem P a xs h.1 (ground arith)
  ]

  pub fresh_keys-All {κ} :
      (P : A → Type κ) (seen xs : List A) → All P xs → All P (fresh_keys seen xs)
  fresh_keys-All P seen [] h = tt
  fresh_keys-All P seen (x ∷ xs) h =
      if-cases (All P) (elem x seen) (λ met. fresh_keys-All P seen xs h.1)
        (λ other. (h.0, fresh_keys-All P (x ∷ seen) xs h.1))

  -- No key stands twice, as a test.
  abbrev pub distinct : List A → Bool
  distinct [] = true
  distinct (x ∷ xs) = not (elem x xs) && distinct xs

  pub distinct-IsNodup : (xs : List A) → distinct xs ≡ true → IsNodup xs
  distinct-IsNodup [] h = tt
  distinct-IsNodup (x ∷ xs) h = (ground arith, distinct-IsNodup xs (ground arith))

  pub elem-filter_by :
      (keep : A → Bool) (a : A) (xs : List A) → elem a (filter_by keep xs) ≡ (keep a && elem a xs)
  elem-filter_by keep a [] = ground arith
  elem-filter_by keep a (x ∷ xs) = elim (Bool-cases (x == a)) [
    | inl same ↦
        rw ((e.decides x a).0 same, elem) (ground (arith, e.decides a a, elem-filter_by keep a xs))
    | inr other ↦ ground (arith, elem-filter_by keep a xs)
  ]

  elem-fresh_keys :
      (a : A) (seen xs : List A) → elem a seen ≡ true → elem a (fresh_keys seen xs) ≡ false
  elem-fresh_keys a seen [] h = refl
  elem-fresh_keys a seen (x ∷ xs) h =
      ground (arith, e.decides x a, elem-fresh_keys a seen xs h, elem-fresh_keys a (x ∷ seen) xs)

  pub fresh_keys-IsNodup : (seen xs : List A) → IsNodup (fresh_keys seen xs)
  fresh_keys-IsNodup seen [] = tt
  fresh_keys-IsNodup seen (x ∷ xs) =
      if-cases IsNodup (elem x seen) (λ met. fresh_keys-IsNodup seen xs)
        (λ other. (
          elem-fresh_keys x (x ∷ seen) xs (ground (arith, e.decides x x)),
          fresh_keys-IsNodup (x ∷ seen) xs,
        ))

  -- A value that a lookup finds has what every value of the dictionary has.
  pub lookup-Holds {κ μ} :
      {V : Type κ} (P : V → Type μ) (k : A) (d : Dict A V)
      → All (λ p. P p.1) d
      → Holds P (lookup k d)
  lookup-Holds P k [] h = tt
  lookup-Holds P k ((j, w) ∷ d) h =
      if-cases (Holds P) (j == k) (λ met. h.0) (λ other. lookup-Holds P k d h.1)
