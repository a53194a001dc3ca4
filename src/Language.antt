-- ===== src/Language.antt =====
-- What the code takes from the language without spelling it out: the Unicode case table and the
-- conversions between numbers and texts. Definitions that use it take it as a parameter.
pub mod Sample
use headtower.Prelude.{ℕ, true, false, List, [], ◌∷◌, ◌++◌, Text, lit, Num}
use headtower.Json.{Json, null, bool, num, str, arr, obj, Items, nil, cons}

pub record Language : Type 0 where
  -- `s.toLowerCase()`
  pub lower : Text → Text
  -- `Number(s)`
  pub number : Text → Num
  -- `String(x)` of the double with these bits
  pub show_double : ℕ → Text
  -- `String(Object.prototype[name])`
  pub show_inherited : Text → Text

-- The properties that every plain object inherits, so that `table[key]` finds them too.
abbrev pub object_prototype : List Text
object_prototype =
    lit "constructor"
    ∷ lit "__defineGetter__"
    ∷ lit "__defineSetter__"
    ∷ lit "hasOwnProperty"
    ∷ lit "__lookupGetter__"
    ∷ lit "__lookupSetter__"
    ∷ lit "isPrototypeOf"
    ∷ lit "propertyIsEnumerable"
    ∷ lit "toString"
    ∷ lit "valueOf"
    ∷ lit "__proto__"
    ∷ lit "toLocaleString"
    ∷ []

abbrev blank_null : Json → Text → Text
blank_null null s = []
blank_null v s = s

-- `String(v)`: an array joins its elements with commas, null standing for the empty text. (An object
-- with a `toString` of its own is taken for a plain one.)
module _ (language : Language) where
  unfoldable mutual
    pub to_text : Json → Text
    to_text null = lit "null"
    to_text (bool true) = lit "true"
    to_text (bool false) = lit "false"
    to_text (num n) = language.show_double n
    to_text (str s) = s
    to_text (arr nil) = []
    to_text (arr (cons v vs)) = blank_null v (to_text v) ++ rest_text vs
    to_text (obj fs) = lit "[object Object]"

    pub rest_text : Items → Text
    rest_text nil = []
    rest_text (cons v vs) = b',' ∷ blank_null v (to_text v) ++ rest_text vs
