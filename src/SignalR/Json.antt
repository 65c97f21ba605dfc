-- ===== src/SignalR/Json.antt =====
-- What json.loads gives. A number is one that equals a natural number, `other_number` any other; the
-- text of a number and of a string is its code points.
use hymer_connect_ha.Prelude.{
  ℕ, ◌+◌, ◌*◌, ◌-◌, Bool, true, false, ◌&&◌, Option, none, some, List, [], ◌∷◌, leb, ◌==◌,
  if◌then◌else◌,
}
use Prim.Native.String.{String}
use text.Mathlib.Text.{◌==◌ as str_eq}

mutual
  pub data Json : Type 0 where
    null : Json
    bool : Bool → Json
    num : ℕ → Json
    other_number : Json
    str : List ℕ → Json
    arr : Items → Json
    obj : Fields → Json

  pub data Items : Type 0 where
    nil : Items
    cons : Json → Items → Items

  pub data Fields : Type 0 where
    end : Fields
    field : String → Json → Fields → Fields

-- `fields.get(key)`
unfoldable pub member : String → Fields → Option Json
member key end = none
member key (field k v fields) = if str_eq k key then some v else member key fields

-- Whether a number that is there is `n`.
unfoldable pub is_num : ℕ → Option Json → Bool
is_num n (some (num m)) = m == n
is_num n (some (bool b)) = (if b then 1 else 0) == n
is_num n none = false
is_num n (some null) = false
is_num n (some other_number) = false
is_num n (some (str s)) = false
is_num n (some (arr items)) = false
is_num n (some (obj fields)) = false

-- `if value:`
unfoldable pub is_truthy : Json → Bool
is_truthy null = false
is_truthy (bool b) = b
is_truthy (num n) = if n == 0 then false else true
is_truthy other_number = true
is_truthy (str []) = false
is_truthy (str (c ∷ chars)) = true
is_truthy (arr nil) = false
is_truthy (arr (cons v items)) = true
is_truthy (obj end) = false
is_truthy (obj (field k v fields)) = true

-- The decimal digits of a text, from a value read so far.
unfoldable pub digits : ℕ → List ℕ → Option ℕ
digits n [] = some n
digits n (c ∷ chars) =
    let rest = digits (n * 10 + (c - 0x30)) chars in if leb 0x30 c && leb c 0x39 then rest else none

-- The number whose `str` is the text: no sign, no leading zero.
unfoldable pub number_of_text : List ℕ → Option ℕ
number_of_text [] = none
number_of_text (c ∷ []) = digits 0 (c ∷ [])
number_of_text (c ∷ d ∷ chars) = if c == 0x30 then none else digits 0 (c ∷ d ∷ chars)

-- The invocation id whose text is `str(value)`, none where it is the text of no id.
unfoldable pub number_of : Option Json → Option ℕ
number_of (some (num n)) = some n
number_of (some (str s)) = number_of_text s
number_of none = none
number_of (some null) = none
number_of (some (bool b)) = none
number_of (some other_number) = none
number_of (some (arr items)) = none
number_of (some (obj fields)) = none
