-- ===== src/Json.antt =====
-- JavaScript values as the policy code sees them: what `JSON.parse` yields, and plain objects with
-- the order of their own keys.
pub mod Objects
use headtower.Prelude.{
  ℕ, zero, suc, ◌-◌, Bool, true, false, ◌&&◌, ◌||◌, not, Option, none, some, List, [], ◌∷◌, ◌++◌,
  Text, lit, eq_text, is_digits, decimal, length, leb, ltb, ◌==◌, if◌then◌else◌,
}

-- A number is the bit pattern of its double: the code only carries it.
mutual
  pub data Json : Type 0 where
    null : Json
    bool : Bool → Json
    num : ℕ → Json
    str : Text → Json
    arr : Items → Json
    obj : Fields → Json

  pub data Items : Type 0 where
    nil : Items
    cons : Json → Items → Items

  -- Own properties in the order of `Object.keys`.
  pub data Fields : Type 0 where
    end : Fields
    field : Text → Json → Fields → Fields

unfoldable pub items : Items → List Json
items nil = []
items (cons v vs) = v ∷ items vs

unfoldable pub of_items : List Json → Items
of_items [] = nil
of_items (v ∷ vs) = cons v (of_items vs)

-- A list of strings as an array.
unfoldable pub texts : List Text → Items
texts [] = nil
texts (s ∷ ss) = cons (str s) (texts ss)

-- `o[key]`, `none` for undefined
unfoldable pub get : Text → Fields → Option Json
get key end = none
get key (field k v fs) = if eq_text key k then some v else get key fs

-- `key in o`, for the keys that the code asks for, none of which `Object.prototype` has
unfoldable pub has_key : Text → Fields → Bool
has_key key end = false
has_key key (field k v fs) = eq_text key k || has_key key fs

-- `Object.keys(o)`
unfoldable pub keys : Fields → List Text
keys end = []
keys (field k v fs) = k ∷ keys fs

-- `delete o[key]`
unfoldable pub remove : Text → Fields → Fields
remove key end = end
remove key (field k v fs) = if eq_text key k then fs else field k v (remove key fs)

-- The number of a key that is an array index; such keys come first, in rising order.
unfoldable pub index_key : Text → Option ℕ
index_key [] = none
index_key (a ∷ []) = if is_digits (a ∷ []) then some (decimal (a ∷ [])) else none
index_key (a ∷ b ∷ s) =
    let n = decimal (a ∷ b ∷ s) in
    if is_digits (a ∷ b ∷ s) && not (a == b'0') && ltb n 4294967295 then some n else none

-- Whether a new key with index `n` stands before the key `k`.
abbrev pub comes_before : ℕ → Option ℕ → Bool
comes_before n none = true
comes_before n (some m) = ltb n m

unfoldable pub insert_index : ℕ → Text → Json → Fields → Fields
insert_index n key v end = field key v end
insert_index n key v (field k w fs) =
    if comes_before n (index_key k)
    then field key v (field k w fs)
    else field k w (insert_index n key v fs)

unfoldable pub append_field : Text → Json → Fields → Fields
append_field key v end = field key v end
append_field key v (field k w fs) = field k w (append_field key v fs)

unfoldable pub replace_field : Text → Json → Fields → Fields
replace_field key v end = end
replace_field key v (field k w fs) =
    if eq_text key k then field k v fs else field k w (replace_field key v fs)

-- `o[key] = v`. An own key keeps its place. Assigning `__proto__` to an object that has no such own
-- key makes none: the setter of `Object.prototype` takes the value.
unfoldable pub put : Text → Json → Fields → Fields
unfolding insert_index append_field replace_field
put key v fs =
    if has_key key fs
    then replace_field key v fs
    else if eq_text key (lit "__proto__")
    then fs
    else elim (index_key key) [ none ↦ append_field key v fs | some n ↦ insert_index n key v fs ]

abbrev pub is_end : Fields → Bool
is_end end = true
is_end (field k v fs) = false
