-- ===== src/Py/Host.antt =====
-- What the handlers take from the interpreter and the machine: the clock, `uuid.uuid4`, the
-- parsers behind `int(str)` and `float(str)`, `str` of a value that is no text, and case mapping.
use aws_serverless_patterns.Prelude.{ℕ, ◌/◌, ◌^◌, String, Bool, true, false, Option, none, some}
use aws_serverless_patterns.Prelude.Int.{ℤ, pos, pos_part, neg_part, sub_ℕ}
use aws_serverless_patterns.Py.Value.{
  Number, Value, bool, int, float, decimal, str, arr, obj, Fields, length_items, get, length_fields,
}
use aws_serverless_patterns.Py.Exec.{
  Result, ok, err, Raised, type_error, value_error, attribute_error, key_error,
}
use Prim.Native.String.{count}

-- `time n` and `uuid n` are the answers to the n-th reading of the clock and the n-th new id.
pub record Host : Type 0 where
  pub time : ℕ → ℕ
  pub uuid : ℕ → String
  pub parse_int : String → Option ℤ
  pub parse_float : String → Option Number
  pub repr : Value → String
  pub upper : String → String
  pub lower : String → String

abbrev pub truncate : Number → ℤ
truncate x = sub_ℕ (pos_part x.mantissa / 10 ^ x.scale) (neg_part x.mantissa / 10 ^ x.scale)

abbrev pub bool_int : Bool → ℤ
bool_int true = pos 1
bool_int false = pos 0

module _ {E : Type 0} where
  abbrev parsed : {A : Type 0} → Option A → Result (Raised E) A
  parsed none = err value_error
  parsed (some a) = ok a

  -- `int(v)`
  unfoldable pub int_of : Host → Value → Result (Raised E) ℤ
  int_of host (bool b) = ok (bool_int b)
  int_of host (int n) = ok n
  int_of host (float x) = ok (truncate x)
  int_of host (decimal x) = ok (truncate x)
  int_of host (str s) = parsed (host.parse_int s)
  int_of host v = err type_error

  -- `float(v)`
  unfoldable pub float_of : Host → Value → Result (Raised E) Number
  float_of host (bool b) = ok (record { mantissa = bool_int b; scale = 0 })
  float_of host (int n) = ok (record { mantissa = n; scale = 0 })
  float_of host (float x) = ok x
  float_of host (decimal x) = ok x
  float_of host (str s) = parsed (host.parse_float s)
  float_of host v = err type_error

-- `str(v)`
abbrev pub str_of : Host → Value → String
str_of host (str s) = s
str_of host v = host.repr v

module _ {E : Type 0} where
  -- `d.get(k)`, where `d` need not be a dict
  unfoldable pub dict_get : Value → String → Result (Raised E) (Option Value)
  dict_get (obj fs) k = ok (get k fs)
  dict_get v k = err attribute_error

  -- `d[k]` on a dict
  unfoldable pub subscript : Fields → String → Result (Raised E) Value
  subscript fs k = elim (get k fs) [ none ↦ err key_error | some v ↦ ok v ]

  -- `len(v)`
  unfoldable pub len_of : Value → Result (Raised E) ℕ
  len_of (arr xs) = ok (length_items xs)
  len_of (obj fs) = ok (length_fields fs)
  len_of (str s) = ok (count s)
  len_of v = err type_error

-- `os.environ`
abbrev pub Environment : Type 0
Environment = String → Option String

abbrev or_default : Option ℤ → ℤ → ℤ
or_default none default = default
or_default (some n) default = n

abbrev parse_or : Host → Option String → ℤ → ℤ
parse_or host none default = default
parse_or host (some s) default = or_default (host.parse_int s) default

-- `_int_env`: an integer variable, or the default where it is missing or no integer
unfoldable pub int_env : Host → Environment → String → ℤ → ℤ
int_env host env name default = parse_or host (env name) default
