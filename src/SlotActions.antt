-- ===== src/SlotActions.antt =====
-- slot_actions.py with reverse_transform and SlotMeta of discovery.py: a catalog action is checked against
-- the metadata of its slot and turned into a sensor command. The metadata files are a lookup argument.
-- Python floats are a parameter; `upper` is `str.upper`. The keys of an action are taken to be there.
pub mod Meaning
pub mod Sound
pub mod Sending
pub mod Serialize
use hymer_connect_ha.Prelude.{
  leb, ◌-◌, ℕ, ◌+◌, ◌*◌, Bool, true, false, not, ◌&&◌, ◌||◌, Option, none, some, List, [], ◌∷◌,
  ◌==◌, if◌then◌else◌,
}
use hymer_connect_ha.Prelude.Int.{ℤ, pos, negsuc}
use hymer_connect_ha.Prelude.Text.{codes, text_in}
use hymer_connect_ha.Pia.Wire.{Floats}
use hymer_connect_ha.Pia.Requests.{SensorCommand}

-- What the code does with floats.
pub record Arithmetic (Float : Type 0) : Type 0 where
  pub of_int : ℤ → Option Float  -- none where OverflowError is raised
  pub times : Float → ℕ → Float
  pub hundred_minus : Float → Float
  pub below : Float → Float → Bool
  pub is_integer : Float → Bool
  pub to_int : Float → ℤ
  pub is_zero : Float → Bool
  pub is_one : Float → Bool

-- The value of an action; any other object is `other`.
pub data Value (Float : Type 0) : Type 0 where
  flag : Bool → Value Float
  integer : ℤ → Value Float
  real : Float → Value Float
  text : List ℕ → Value Float
  other : Value Float

pub data Transform : Type 0 where
  div10 div100 div1000 div3600 invert100 unknown_transform : Transform

pub data Datatype : Type 0 where
  boolean floating integral textual unknown_datatype : Datatype

pub data WireMode : Type 0 where
  read_only read_write write_only : WireMode

-- The fields that matter here; the limits are as floats.
pub record SlotMeta (Float : Type 0) : Type 0 where
  pub datatype : Datatype
  pub wire_mode : WireMode
  pub transform : Option Transform
  pub min_value : Option Float
  pub max_value : Option Float

pub record Action (Float : Type 0) : Type 0 where
  pub component_id : ℤ
  pub sensor_id : ℤ
  pub value : Value Float

-- `raised_other` is any exception but a SlotActionError.
pub data Checked (A : Type 0) : Type 0 where
  accepted : A → Checked A
  slot_action_error : Checked A
  raised_other : Checked A

infixl 5 ◌>>=◌
abbrev pub ◌>>=◌ : {A B : Type 0} → Checked A → (A → Checked B) → Checked B
accepted a >>= f = f a
slot_action_error >>= f = slot_action_error
raised_other >>= f = raised_other

unfoldable pub is_writable : WireMode → Bool
is_writable read_only = false
is_writable read_write = true
is_writable write_only = true

abbrev pub true_texts : List (List ℕ)
true_texts = codes "ON" ∷ codes "TRUE" ∷ codes "YES" ∷ codes "OPEN" ∷ codes "UNLOCKED" ∷ []

abbrev pub false_texts : List (List ℕ)
false_texts =
    codes "OFF" ∷ codes "FALSE" ∷ codes "NO" ∷ codes "CLOSE" ∷ codes "CLOSED" ∷ codes "LOCKED" ∷ []

abbrev one_or_zero : Bool → ℤ
one_or_zero b = if b then pos 1 else pos 0

-- `n * k` for a positive k, and `100 - n`
unfoldable pub times_int : ℤ → ℕ → ℤ
times_int (pos n) k = pos (n * k)
times_int (negsuc n) k = negsuc ((n + 1) * k - 1)

unfoldable pub hundred_minus_int : ℤ → ℤ
hundred_minus_int (pos n) = if leb n 100 then pos (100 - n) else negsuc (n - 101)
hundred_minus_int (negsuc n) = pos (101 + n)

-- `{n}` in `{0, 1}`
unfoldable pub bit_of_int : ℤ → Option Bool
bit_of_int (pos n) = if n == 0 then some false else if n == 1 then some true else none
bit_of_int (negsuc n) = none

module _ {Float : Type 0} (a : Arithmetic Float) where
  open a use {of_int, times, hundred_minus, below, is_integer, to_int, is_zero, is_one}

  unfoldable pub reverse_int : ℤ → Transform → Value Float
  reverse_int n div10 = integer (times_int n 10)
  reverse_int n div100 = integer (times_int n 100)
  reverse_int n div1000 = integer (times_int n 1000)
  reverse_int n div3600 = integer (times_int n 3600)
  reverse_int n invert100 = integer (hundred_minus_int n)
  reverse_int n unknown_transform = integer n

  unfoldable pub reverse_real : Float → Transform → Value Float
  reverse_real x div10 = real (times x 10)
  reverse_real x div100 = real (times x 100)
  reverse_real x div1000 = real (times x 1000)
  reverse_real x div3600 = real (times x 3600)
  reverse_real x invert100 = real (hundred_minus x)
  reverse_real x unknown_transform = real x

  -- A Boolean is an int here, but is returned as it is where no transform applies.
  unfoldable pub reverse_flag : Bool → Transform → Value Float
  reverse_flag b div10 = reverse_int (one_or_zero b) div10
  reverse_flag b div100 = reverse_int (one_or_zero b) div100
  reverse_flag b div1000 = reverse_int (one_or_zero b) div1000
  reverse_flag b div3600 = reverse_int (one_or_zero b) div3600
  reverse_flag b invert100 = reverse_int (one_or_zero b) invert100
  reverse_flag b unknown_transform = flag b

  unfoldable pub reverse_transform : Value Float → Option Transform → Value Float
  reverse_transform v none = v
  reverse_transform (flag b) (some t) = reverse_flag b t
  reverse_transform (integer n) (some t) = reverse_int n t
  reverse_transform (real x) (some t) = reverse_real x t
  reverse_transform (text s) (some t) = text s
  reverse_transform other (some t) = other

  -- `float(value)`; it is called on numbers only, where a Boolean is one.
  unfoldable pub float_of_int : ℤ → Checked Float
  float_of_int n = elim (of_int n) as (λ _. Checked Float) [
    | none ↦ raised_other
    | some x ↦ accepted x
  ]

  unfoldable pub float_of : Value Float → Checked Float
  float_of (flag b) = float_of_int (one_or_zero b)
  float_of (integer n) = float_of_int n
  float_of (real x) = accepted x
  float_of (text s) = raised_other
  float_of other = raised_other

  unfoldable pub not_below : Float → Option Float → Bool
  not_below x none = true
  not_below x (some minimum) = not (below x minimum)

  unfoldable pub not_above : Float → Option Float → Bool
  not_above x none = true
  not_above x (some maximum) = not (below maximum x)

  unfoldable pub validate_numeric_range : Float → Option Float → Option Float → Checked Bool
  validate_numeric_range x minimum maximum =
      if not_below x minimum
      then (if not_above x maximum then accepted true else slot_action_error)
      else slot_action_error

  module _ (upper : List ℕ → List ℕ) where
    unfoldable pub bit_of_text : List ℕ → Option Bool
    bit_of_text s =
        if text_in s true_texts
        then some true
        else if text_in s false_texts
        then some false
        else none

    unfoldable pub bit_of : Value Float → Option Bool
    bit_of (flag b) = some b
    bit_of (integer n) = bit_of_int n
    bit_of (real x) = if is_zero x then some false else if is_one x then some true else none
    bit_of (text s) = bit_of_text (upper s)
    bit_of other = none

  -- `isinstance(value, bool) or not isinstance(value, (int, float))` is false.
  unfoldable pub is_number : Value Float → Bool
  is_number (integer n) = true
  is_number (real x) = true
  is_number (flag b) = false
  is_number (text s) = false
  is_number other = false

  unfoldable pub natural : ℤ → Checked ℤ
  natural (pos n) = accepted (pos n)
  natural (negsuc n) = slot_action_error

  -- The integer that is written, for a number.
  unfoldable pub integer_of : Value Float → Checked ℤ
  integer_of value = do
    numeric ← float_of value
    if is_integer numeric then natural (to_int numeric) else slot_action_error
