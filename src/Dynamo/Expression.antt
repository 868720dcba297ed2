-- ===== src/Dynamo/Expression.antt =====
-- Update expressions: `SET path = operand, …` with an optional condition.
use aws_serverless_patterns.Prelude.{
  String, Bool, true, false, ◌&&◌, ◌||◌, Option, none, some, List, [], ◌∷◌, ◌==◌, if◌then◌else◌,
  ◌≡◌, arith,
}
use aws_serverless_patterns.Prelude.Int.{ℤ, ◌+ℤ◌, pos}
use aws_serverless_patterns.Py.Value.{Value, int, str, obj, Fields, get, set, is_text, float_free}
use aws_serverless_patterns.Py.Exec.{Result, ok, err}

-- The attributes of an item.
abbrev pub Item : Type 0
Item = String → Option Value

-- `ValidationException`, `ConditionalCheckFailedException`, and the `TypeError` with which boto3
-- refuses a Python float before it sends anything.
pub data Fault : Type 0 where
  validation condition_failed float_refused : Fault

-- `a` and `a.b`
pub data DocumentPath : Type 0 where
  attribute : String → DocumentPath
  member : String → String → DocumentPath

-- `:v` and `if_not_exists(path, :zero) + :n`
pub data Operand : Type 0 where
  literal : Value → Operand
  plus_or : DocumentPath → ℤ → ℤ → Operand

-- `attribute_exists(a)`, `a IN (…)`, `c AND d`
pub data Condition : Type 0 where
  always : Condition
  attribute_exists : String → Condition
  is_in : String → List String → Condition
  both : Condition → Condition → Condition

pub record Update : Type 0 where
  pub sets : List (DocumentPath × Operand)
  pub condition : Condition

abbrev pub set_attribute : String → Value → Item → Item
set_attribute a v item = λ j. if a == j then some v else item j

abbrev read_member : Option Value → String → Option Value
read_member (some (obj fs)) k = get k fs
read_member _ k = none

abbrev read_path : Item → DocumentPath → Option Value
read_path item (attribute a) = item a
read_path item (member a k) = read_member (item a) k

-- A path into a map that is not there is invalid for update.
abbrev write_member : Item → String → String → Value → Option Value → Result Fault Item
write_member item a k v (some (obj fs)) = ok (set_attribute a (obj (set k v fs)) item)
write_member item a k v _ = err validation

abbrev write_path : DocumentPath → Value → Item → Result Fault Item
write_path (attribute a) v item = ok (set_attribute a v item)
write_path (member a k) v item = write_member item a k v (item a)

-- Kept shut: `next_count` says what it gives where the addition succeeds.
unfoldable pub add_to : Option Value → ℤ → ℤ → Result Fault Value
add_to none zero_value n = ok (int (zero_value +ℤ n))
add_to (some (int m)) zero_value n = ok (int (m +ℤ n))
add_to (some _) zero_value n = err validation

abbrev operand_value : Item → Operand → Result Fault Value
operand_value old (literal v) = ok v
operand_value old (plus_or p zero_value n) = add_to (read_path old p) zero_value n

abbrev pub next_count : Option Value → Option ℤ
next_count none = some (pos 0 +ℤ pos 1)
next_count (some (int n)) = some (n +ℤ pos 1)
next_count (some v) = none

pub add_to-next_count :
    (v : Option Value) (n : ℤ) → next_count v ≡ some n → add_to v (pos 0) (pos 1) ≡ ok (int n)
unfolding add_to
add_to-next_count v n h = ground arith

pub add_to_refused :
    (v : Option Value) → next_count v ≡ none → add_to v (pos 0) (pos 1) ≡ err validation
unfolding add_to
add_to_refused v h = ground arith

infixl 5 ◌>>=◌
abbrev ◌>>=◌ : {A B : Type 0} → Result Fault A → (A → Result Fault B) → Result Fault B
ok a >>= f = f a
err e >>= f = err e

-- Operands are read from the item as it was before the update.
abbrev pub apply_sets : Item → List (DocumentPath × Operand) → Item → Result Fault Item
apply_sets old [] item = ok item
apply_sets old ((p, o) ∷ rest) item =
    operand_value old o >>= (λ v. write_path p v item >>= (λ next. apply_sets old rest next))

abbrev one_of : Option Value → List String → Bool
one_of v [] = false
one_of v (t ∷ ts) = is_text v t || one_of v ts

abbrev is_some : Option Value → Bool
is_some none = false
is_some (some v) = true

abbrev pub holds : Condition → Item → Bool
holds always item = true
holds (attribute_exists a) item = is_some (item a)
holds (is_in a texts) item = one_of (item a) texts
holds (both c c') item = holds c item && holds c' item

abbrev nothing : Item
nothing = λ _. none

abbrev pub item_or_empty : Option Item → Item
item_or_empty none = nothing
item_or_empty (some item) = item

-- An update of an absent key starts from an item that holds only the key.
abbrev pub start_from : String → String → Option Item → Item
start_from key_name key none = set_attribute key_name (str key) nothing
start_from key_name key (some item) = item

-- The item after the update, or the fault that leaves the table as it was.
abbrev pub evaluate : String → String → Update → Option Item → Result Fault Item
evaluate key_name key u old =
    if holds u.condition (item_or_empty old)
    then apply_sets (item_or_empty old) u.sets (start_from key_name key old)
    else err condition_failed

abbrev pub settle : Result Fault Item → Option Item → Option Item
settle (ok item) old = some item
settle (err e) old = old

-- boto3 serialises every value of a request first, and refuses a Python float.
abbrev pub storable : List (DocumentPath × Operand) → Bool
storable [] = true
storable ((p, literal v) ∷ rest) = float_free v && storable rest
storable ((p, plus_or q z n) ∷ rest) = storable rest

-- The key of a request whose other values are storable or not: a text that is not empty.
abbrev pub request_key : Bool → Value → Result Fault String
request_key fits (str k) =
    if fits then if k == "" then err validation else ok k else err float_refused
request_key fits v = if fits && float_free v then err validation else err float_refused

-- The outcome of `update_item`, and the item under `j` afterwards.
abbrev pub update_outcome :
    Result Fault String → String → Update → (String → Option Item) → Result Fault Item
update_outcome (err e) key_name u old = err e
update_outcome (ok k) key_name u old = evaluate key_name k u (old k)

abbrev pub update_after :
    Result Fault String → String → Update → (String → Option Item) → String → Option Item
update_after (err e) key_name u old j = old j
update_after (ok k) key_name u old j =
    if k == j then settle (evaluate key_name k u (old k)) (old k) else old j

-- The outcome of `put_item`, which replaces the whole item, and the item under `j` afterwards.
abbrev pub put_outcome : Result Fault String → Result Fault (Unit {0})
put_outcome (err e) = err e
put_outcome (ok k) = ok tt

abbrev pub put_after : Result Fault String → Fields → (String → Option Item) → String → Option Item
put_after (err e) fields old j = old j
put_after (ok k) fields old j = if k == j then some (λ a. get a fields) else old j

abbrev pub get_outcome : Result Fault String → (String → Option Item) → Result Fault (Option Item)
get_outcome (err e) old = err e
get_outcome (ok k) old = ok (old k)
