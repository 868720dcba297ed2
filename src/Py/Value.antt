-- ===== src/Py/Value.antt =====
-- Values of a JSON document, as `json.loads` builds them, with the `Decimal` of boto3 items.
-- A `float` and a `Decimal` are exact decimal numbers here: binary rounding is not modelled.
use aws_serverless_patterns.Prelude.{
  ℕ, zero, suc, String, ◌≡◌, refl, Bool, true, false, not, ◌&&◌, Option, none, some, arith, eq_iff,
  ◌==◌, if◌then◌else◌,
}
use aws_serverless_patterns.Prelude.Int.{ℤ, pos, negsuc}

-- mantissa * 10 ^ -scale: a finite number; infinity, NaN and overflow are not modelled.
pub record Number : Type 0 where
  pub mantissa : ℤ
  pub scale : ℕ

mutual
  pub data Value : Type 0 where
    null : Value
    bool : Bool → Value
    int : ℤ → Value
    float : Number → Value
    decimal : Number → Value
    str : String → Value
    obj : Fields → Value
    arr : Items → Value

  pub data Fields : Type 0 where
    field : String → Value → Fields → Fields
    end : Fields

  pub data Items : Type 0 where
    cons : Value → Items → Items
    nil : Items

abbrev pub length_items : Items → ℕ
length_items nil = 0
length_items (cons x xs) = suc (length_items xs)

-- `d.get(k)` of a dict with string keys
unfoldable pub get : String → Fields → Option Value
get k end = none
get k (field j v fs) = if j == k then some v else get k fs

-- `d[k] = v`
unfoldable pub set : String → Value → Fields → Fields
set k v end = field k v end
set k v (field j w fs) = let rest = set k v fs in if j == k then field j v fs else field j w rest

pub get-set :
    (l k : String) (v : Value) (fs : Fields)
    → get l (set k v fs) ≡ (if k == l then some v else get l fs)
unfolding get set
get-set l k v end = refl
get-set l k v (field j w fs) = ground (arith, eq_iff j k, eq_iff j l, eq_iff k l, get-set l k v fs)

-- `d.get(k, default)`
abbrev pub get_or : Fields → String → Value → Value
get_or fs k default = elim (get k fs) [ none ↦ default | some v ↦ v ]

-- A value that `get` returned, where `None` is null.
abbrev pub none_as_null : Option Value → Value
none_as_null none = null
none_as_null (some v) = v

abbrev is_zero : ℤ → Bool
is_zero (pos zero) = true
is_zero (pos (suc n)) = false
is_zero (negsuc n) = false

-- `bool(v)`
abbrev pub truthy : Value → Bool
truthy null = false
truthy (bool b) = b
truthy (int n) = not (is_zero n)
truthy (float x) = not (is_zero x.mantissa)
truthy (decimal x) = not (is_zero x.mantissa)
truthy (str s) = not (s == "")
truthy (obj end) = false
truthy (obj (field k v fs)) = true
truthy (arr nil) = false
truthy (arr (cons x xs)) = true

-- `not v`, where `None` stands for a missing value too
abbrev pub is_falsy : Option Value → Bool
is_falsy none = true
is_falsy (some v) = not (truthy v)

-- `v or default`
abbrev pub or_else : Option Value → Value → Value
or_else none default = default
or_else (some v) default = if truthy v then v else default

-- `v == s` for a text `s`
abbrev pub is_text : Option Value → String → Bool
is_text (some (str s)) t = s == t
is_text v t = false

unfoldable mutual
  pub float_free : Value → Bool
  float_free (float x) = false
  float_free (arr xs) = float_free_items xs
  float_free (obj fs) = float_free_fields fs
  float_free v = true

  pub float_free_items : Items → Bool
  float_free_items nil = true
  float_free_items (cons x xs) = float_free x && float_free_items xs

  pub float_free_fields : Fields → Bool
  float_free_fields end = true
  float_free_fields (field k v fs) = float_free v && float_free_fields fs

abbrev pub length_fields : Fields → ℕ
length_fields end = 0
length_fields (field k v fs) = suc (length_fields fs)
