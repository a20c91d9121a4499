-- ===== src/Tools/Validator/Sanitize.antt =====
-- `_sanitize_value` (tools/tool_validator.py): which values may cross into a tool.
use prima_next.Base.{Bool, true, false, ◌&&◌, ◌≡◌, refl, Option, none, some, arith}
use prima_next.Base.Value.{
  Value, Items, Fields, null, bool, int, float, str, list, tuple, dict, object, nil, cons, end,
  field,
}

abbrev as_list : Option Items → Option Value
as_list none = none
as_list (some xs) = some (list xs)

abbrev as_dict : Option Fields → Option Value
as_dict none = none
as_dict (some fs) = some (dict fs)

abbrev cons_safe : Option Value → Option Items → Option Items
cons_safe none xs = none
cons_safe (some v) none = none
cons_safe (some v) (some xs) = some (cons v xs)

-- A key that is no string makes the dictionary unsafe.
abbrev field_safe : Value → Option Value → Option Fields → Option Fields
field_safe (str k) none fs = none
field_safe (str k) (some v) none = none
field_safe (str k) (some v) (some fs) = some (field (str k) v fs)
field_safe _ v fs = none

-- `none` is the sentinel `_UNSAFE`.
unfoldable mutual
  pub sanitize : Value → Option Value
  sanitize null = some null
  sanitize (bool b) = some (bool b)
  sanitize (int n) = some (int n)
  sanitize (float x) = some (float x)
  sanitize (str s) = some (str s)
  sanitize (list xs) = as_list (sanitize_items xs)
  sanitize (tuple xs) = as_list (sanitize_items xs)
  sanitize (dict fs) = as_dict (sanitize_fields fs)
  sanitize (object o) = none

  pub sanitize_items : Items → Option Items
  sanitize_items nil = some nil
  sanitize_items (cons v vs) = cons_safe (sanitize v) (sanitize_items vs)

  pub sanitize_fields : Fields → Option Fields
  sanitize_fields end = some end
  sanitize_fields (field k v fs) = field_safe k (sanitize v) (sanitize_fields fs)

abbrev is_text : Value → Bool
is_text (str s) = true
is_text v = false

-- A value of JSON's shape: no tuple, no runtime object, and string keys, at every depth.
unfoldable mutual
  pub is_plain : Value → Bool
  is_plain (list xs) = plain_items xs
  is_plain (dict fs) = plain_fields fs
  is_plain (tuple xs) = false
  is_plain (object o) = false
  is_plain v = true

  pub plain_items : Items → Bool
  plain_items nil = true
  plain_items (cons v vs) = is_plain v && plain_items vs

  pub plain_fields : Fields → Bool
  plain_fields end = true
  plain_fields (field k v fs) = is_text k && (is_plain v && plain_fields fs)

abbrev value_plain : Option Value → Bool
value_plain none = true
value_plain (some v) = is_plain v

abbrev items_plain : Option Items → Bool
items_plain none = true
items_plain (some v) = plain_items v

abbrev fields_plain : Option Fields → Bool
fields_plain none = true
fields_plain (some v) = plain_fields v

cons_safe-plain :
    (v : Option Value) (xs : Option Items)
    → value_plain v ≡ true
    → items_plain xs ≡ true
    → items_plain (cons_safe v xs) ≡ true
unfolding is_plain
cons_safe-plain none xs p q = refl
cons_safe-plain (some v) none p q = refl
cons_safe-plain (some v) (some xs) p q = rw (p, q)

field_safe-plain :
    (k : Value) (v : Option Value) (fs : Option Fields)
    → value_plain v ≡ true
    → fields_plain fs ≡ true
    → fields_plain (field_safe k v fs) ≡ true
unfolding is_plain
field_safe-plain (str k) none fs p q = refl
field_safe-plain (str k) (some v) none p q = refl
field_safe-plain (str k) (some v) (some fs) p q = rw (p, q)
field_safe-plain _ v fs p q = refl

mutual
  unfolding sanitize is_plain

  sanitize-plain : (v : Value) → value_plain (sanitize v) ≡ true
  sanitize-plain null = refl
  sanitize-plain (bool b) = refl
  sanitize-plain (int n) = refl
  sanitize-plain (float x) = refl
  sanitize-plain (str s) = refl
  sanitize-plain (list xs) = ground (arith, sanitize_items-plain xs)
  sanitize-plain (tuple xs) = ground (arith, sanitize_items-plain xs)
  sanitize-plain (dict fs) = ground (arith, sanitize_fields-plain fs)
  sanitize-plain (object o) = refl

  sanitize_items-plain : (xs : Items) → items_plain (sanitize_items xs) ≡ true
  sanitize_items-plain nil = refl
  sanitize_items-plain (cons v vs) =
      cons_safe-plain (sanitize v) (sanitize_items vs) (sanitize-plain v) (sanitize_items-plain vs)

  sanitize_fields-plain : (fs : Fields) → fields_plain (sanitize_fields fs) ≡ true
  sanitize_fields-plain end = refl
  sanitize_fields-plain (field k v fs) =
      field_safe-plain k (sanitize v) (sanitize_fields fs) (sanitize-plain v)
        (sanitize_fields-plain fs)

both : (a b : Bool) → (a && b) ≡ true → (a ≡ true) × (b ≡ true)
both a b h = ground arith

field_safe-text :
    (k v : Value) (fs : Fields)
    → is_text k ≡ true
    → field_safe k (some v) (some fs) ≡ some (field k v fs)
field_safe-text k v fs h = ground arith

mutual
  unfolding sanitize is_plain

  plain-sanitize : (v : Value) → is_plain v ≡ true → sanitize v ≡ some v
  plain-sanitize null h = refl
  plain-sanitize (bool b) h = refl
  plain-sanitize (int n) h = refl
  plain-sanitize (float x) h = refl
  plain-sanitize (str s) h = refl
  plain-sanitize (list xs) h = rw (plain-sanitize_items xs h)
  plain-sanitize (tuple xs) h = cc
  plain-sanitize (dict fs) h = rw (plain-sanitize_fields fs h)
  plain-sanitize (object o) h = cc

  plain-sanitize_items : (xs : Items) → plain_items xs ≡ true → sanitize_items xs ≡ some xs
  plain-sanitize_items nil h = refl
  plain-sanitize_items (cons v vs) h =
      let (p, q) = both (is_plain v) (plain_items vs) h in
      rw (plain-sanitize v p, plain-sanitize_items vs q)

  plain-sanitize_fields : (fs : Fields) → plain_fields fs ≡ true → sanitize_fields fs ≡ some fs
  plain-sanitize_fields end h = refl
  plain-sanitize_fields (field k v fs) h =
      let (t, r) = both (is_text k) (is_plain v && plain_fields fs) h in
      let (p, q) = both (is_plain v) (plain_fields fs) r in
      rw (plain-sanitize v p, plain-sanitize_fields fs q) (field_safe-text k v fs t)

-- What passes the sanitizer has JSON's shape at every depth, whatever was put in.
pub sanitize_sound : (v : Value) {w : Value} → sanitize v ≡ some w → is_plain w ≡ true
sanitize_sound v h = ground (arith, sanitize-plain v)

-- The sanitizer leaves a value of JSON's shape as it is, so sanitizing twice is sanitizing once.
sanitize_idem : (v : Value) {w : Value} → sanitize v ≡ some w → sanitize w ≡ some w
sanitize_idem v {w} h = plain-sanitize w (sanitize_sound v h)
