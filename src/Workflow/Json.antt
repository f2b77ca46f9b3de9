-- ===== src/Workflow/Json.antt =====
-- The JSON and YAML values that a template's fields hold, with Python's truth of each.
use bastet_agent_os.Prelude.{
  ℕ, ◌^◌, String, Bool, true, false, not, Option, none, some, List, [], ◌∷◌, ◌==◌, eqb,
  if◌then◌else◌,
}
use bastet_agent_os.Prelude.Int.{ℤ, pos, negsuc, ltz, scale}
use bastet_agent_os.Prelude.Text.{nonempty}

-- A finite float is a whole number over a power of two: `finite m k` is m / 2 ** k.
pub data Float : Type 0 where
  finite : ℤ → ℕ → Float
  inf neg_inf nan : Float

-- A list or an object inside a value is read for its truth alone: `nested false` is an empty one.
pub data Scalar : Type 0 where
  null : Scalar
  bool : Bool → Scalar
  int : ℤ → Scalar
  float : Float → Scalar
  text : String → Scalar
  nested : Bool → Scalar

pub data Value : Type 0 where
  scalar : Scalar → Value
  list : List Scalar → Value
  object : Bool → Value

-- A key of an object: not there, there with `null`, or with a value of the type that it should have.
pub data Field (A : Type 0) : Type 0 where
  missing null : Field A
  given : A → Field A

-- `d.get(key, default)`, which is `None` at a `null`.
abbrev pub get_default : {A : Type 0} → Field A → A → Option A
get_default missing d = some d
get_default null d = none
get_default (given a) d = some a

-- `d.get(key)`
abbrev pub get : {A : Type 0} → Field A → Option A
get missing = none
get null = none
get (given a) = some a

abbrev pub is_present : {A : Type 0} → Field A → Bool
is_present missing = false
is_present null = true
is_present (given a) = true

abbrev is_zero : ℤ → Bool
is_zero (pos n) = eqb n 0
is_zero (negsuc n) = false

-- `bool(x)`
unfoldable pub truthy : Scalar → Bool
truthy null = false
truthy (bool b) = b
truthy (int n) = not (is_zero n)
truthy (float (finite m k)) = not (is_zero m)
truthy (float _) = true
truthy (text s) = nonempty s
truthy (nested b) = b

unfoldable pub truthy_value : Value → Bool
unfolding truthy
truthy_value (scalar s) = truthy s
truthy_value (list []) = false
truthy_value (list (x ∷ xs)) = true
truthy_value (object b) = b

-- `d.get(key) or []`
unfoldable pub or_empty : Field Value → Value
unfolding truthy_value
or_empty (given v) = if truthy_value v then v else list []
or_empty _ = list []

-- `config.get(key)` of an object with scalar values.
unfoldable pub lookup : String → List (String × Scalar) → Scalar
lookup key [] = null
lookup key ((k, v) ∷ rest) = if k == key then v else lookup key rest

-- `isinstance(x, (int, float)) and not isinstance(x, bool)`
unfoldable pub as_number : Scalar → Option Float
as_number (int n) = some (finite n 0)
as_number (float x) = some x
as_number _ = none

unfoldable pub is_finite : Float → Bool
is_finite (finite m k) = true
is_finite _ = false

-- `a < b`: Python compares numbers exactly, and NaN with nothing.
unfoldable pub float_lt : Float → Float → Bool
float_lt (finite m k) (finite n j) = ltz (scale m (2 ^ j)) (scale n (2 ^ k))
float_lt (finite m k) inf = true
float_lt neg_inf (finite n j) = true
float_lt neg_inf inf = true
float_lt _ _ = false
