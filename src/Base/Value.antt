-- ===== src/Base/Value.antt =====
-- Python values of a dynamic type, as arguments of a tool hold them. A float is an integer number
-- of millionths (infinities and NaN are left out); `object` is any other runtime object.
use Prim.Native.Nat.{ℕ, suc, ◌+◌, ◌-◌, ◌*◌}
use mathlib.Core.Bool.{Bool, true, false, ◌&&◌, ◌||◌}
use mathlib.Core.Option.{Option, none, some}
use prima_next.Base.Int.{ℤ, pos, negsuc, pos_part, neg_part}
use prima_next.Base.Tests.{◌==◌, nat_eq, ltb}
use prima_next.Base.Text.{Text, text_eq}

mutual
  pub data Value : Type 0 where
    null : Value
    bool : Bool → Value
    int : ℤ → Value
    float : ℤ → Value
    str : Text → Value
    list : Items → Value
    tuple : Items → Value
    dict : Fields → Value
    object : Text → Value

  pub data Items : Type 0 where
    nil : Items
    cons : Value → Items → Items

  pub data Fields : Type 0 where
    end : Fields
    field : Value → Value → Fields → Fields

abbrev pub ltb_ℤ : ℤ → ℤ → Bool
ltb_ℤ a b = ltb (pos_part a + neg_part b) (pos_part b + neg_part a)

abbrev pub eqb_ℤ : ℤ → ℤ → Bool
eqb_ℤ a b = (pos_part a + neg_part b) == (pos_part b + neg_part a)

-- A whole number in millionths.
abbrev pub millionths : ℤ → ℤ
millionths (pos n) = pos (n * 1_000_000)
millionths (negsuc n) = negsuc ((n + 1) * 1_000_000 - 1)

abbrev pub of_bool : Bool → ℤ
of_bool true = pos 1
of_bool false = pos 0

-- `float(value)` where `isinstance(value, int | float)`; a bool is an int.
abbrev pub number : Value → Option ℤ
number (bool b) = some (millionths (of_bool b))
number (int n) = some (millionths n)
number (float x) = some x
number _ = none

abbrev pub length_items : Items → ℕ
length_items nil = 0
length_items (cons v vs) = suc (length_items vs)

abbrev pub length_fields : Fields → ℕ
length_fields end = 0
length_fields (field k v fs) = suc (length_fields fs)

abbrev same_number : Option ℤ → Option ℤ → Bool
same_number (some a) (some b) = eqb_ℤ a b
same_number _ _ = false

-- Whether a field passes both tests.
abbrev has_field : (Value → Bool) → (Value → Bool) → Fields → Bool
has_field key val end = false
has_field key val (field k v fs) = (key k && val v) || has_field key val fs

abbrev equal_items : (Value → Bool) → (Items → Bool) → Items → Bool
equal_items head tail nil = false
equal_items head tail (cons v vs) = head v && tail vs

-- Python's `==`.
unfoldable mutual
  pub value_eq : Value → Value → Bool
  value_eq null null = true
  value_eq null w = false
  value_eq (bool a) w = same_number (some (millionths (of_bool a))) (number w)
  value_eq (int a) w = same_number (some (millionths a)) (number w)
  value_eq (float a) w = same_number (some a) (number w)
  value_eq (str s) (str t) = s == t
  value_eq (str s) w = false
  value_eq (list xs) (list ys) = items_eq xs ys
  value_eq (list xs) w = false
  value_eq (tuple xs) (tuple ys) = items_eq xs ys
  value_eq (tuple xs) w = false
  value_eq (dict fs) (dict gs) = length_fields fs == length_fields gs && fields_in fs gs
  value_eq (dict fs) w = false
  value_eq (object a) (object b) = a == b
  value_eq (object a) w = false

  pub items_eq : Items → Items → Bool
  items_eq nil nil = true
  items_eq nil (cons w ws) = false
  items_eq (cons v vs) ws = equal_items (value_eq v) (items_eq vs) ws

  pub fields_in : Fields → Fields → Bool
  fields_in end gs = true
  fields_in (field k v fs) gs = has_field (value_eq k) (value_eq v) gs && fields_in fs gs
