-- ===== src/Js/Value.antt =====
-- A value of unknown type at run time, as `typeof` and `!` tell it apart. A `number` is the text
-- that its `toString` gives; `decimal` holds an instance of the decimal library's class.
use kalvora_js.Common.{ℕ, Bool, true, false, not, ◌||◌, [], Text, codes, text_eq}
use kalvora_js.Common.Int.{ℤ, pos}

mutual
  pub data Value (D : Type 0) : Type 0 where
    undefined null : Value D
    boolean : Bool → Value D
    number : Text → Value D
    bigint : ℤ → Value D
    string : Text → Value D
    array : Values D → Value D
    decimal : D → Value D
    object : Value D

  pub data Values (D : Type 0) : Type 0 where
    nil : Values D
    cons : Value D → Values D → Values D

abbrev is_zero : ℤ → Bool
is_zero (pos ℕ.zero) = true
is_zero _ = false

-- `!value` is the negation of this.
unfoldable pub truthy : {D : Type 0} → Value D → Bool
truthy undefined = false
truthy null = false
truthy (boolean b) = b
truthy (number t) = not (text_eq t (codes "0") || text_eq t (codes "NaN"))
truthy (bigint n) = not (is_zero n)
truthy (string s) = not (text_eq s [])
truthy (array vs) = true
truthy (decimal d) = true
truthy object = true

-- What `typeof` answers.
pub data JsType : Type 0 where
  undefined_type boolean_type number_type bigint_type string_type object_type : JsType

unfoldable pub type_of : {D : Type 0} → Value D → JsType
type_of undefined = undefined_type
type_of (boolean b) = boolean_type
type_of (number t) = number_type
type_of (bigint n) = bigint_type
type_of (string s) = string_type
type_of null = object_type
type_of (array vs) = object_type
type_of (decimal d) = object_type
type_of object = object_type
