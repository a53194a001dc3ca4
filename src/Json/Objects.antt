-- ===== src/Json/Objects.antt =====
-- The laws of plain objects: reading after writing, and writes that change nothing.
use headtower.Prelude.{
  ◌≡◌, ap, refl, arith, true, false, none, some, Text, lit, eq_text, eq_text_iff, Bool-cases,
  Option-cases, inl, inr, ℕ,
}
use headtower.Json.{
  Json, Fields, end, field, get, has_key, remove, put, insert_index, append_field, replace_field,
  index_key, comes_before,
}

pub has_key-get :
    (key : Text) (fs : Fields) (v : Json) → get key fs ≡ some v → has_key key fs ≡ true
unfolding get has_key
has_key-get key end v e = cc
has_key-get key (field k w fs) v e = ground (arith, has_key-get key fs v)

pub no_key-get : (key : Text) (fs : Fields) → get key fs ≡ none → has_key key fs ≡ false
unfolding get has_key
no_key-get key end e = refl
no_key-get key (field k w fs) e = ground (arith, no_key-get key fs)

pub get-no_key : (key : Text) (fs : Fields) → has_key key fs ≡ false → get key fs ≡ none
unfolding get has_key
get-no_key key end e = refl
get-no_key key (field k w fs) e = ground (arith, get-no_key key fs)

replace_same :
    (key : Text) (v : Json) (fs : Fields) → get key fs ≡ some v → replace_field key v fs ≡ fs
unfolding get replace_field
replace_same key v end e = cc
replace_same key v (field k w fs) e = elim (Bool-cases (eq_text key k)) [
  | inl h ↦ let same : some w ≡ some v = rw h at e in rw h (ground (arith, same))
  | inr h ↦
      let later : get key fs ≡ some v = rw h at e in
      rw h (ap (λ r. field k w r) (replace_same key v fs later))
]

-- Writing what stands there already changes nothing, not even the order.
pub put_same : (key : Text) (v : Json) (fs : Fields) → get key fs ≡ some v → put key v fs ≡ fs
unfolding put
put_same key v fs e = rw (has_key-get key fs v e) (replace_same key v fs e)

pub remove_absent : (key : Text) (fs : Fields) → get key fs ≡ none → remove key fs ≡ fs
unfolding get remove
remove_absent key end e = refl
remove_absent key (field k w fs) e = elim (Bool-cases (eq_text key k)) [
  | inl h ↦ let absurd_e : some w ≡ none = rw h at e in ground (arith, absurd_e)
  | inr h ↦
      let later : get key fs ≡ none = rw h at e in
      rw h (ap (λ r. field k w r) (remove_absent key fs later))
]

module _ (other : Text) (key : Text) (apart : eq_text other key ≡ false) where
  get-replace : (v : Json) (fs : Fields) → get other (replace_field key v fs) ≡ get other fs
  unfolding get replace_field
  get-replace v end = refl
  get-replace v (field k w fs) = elim (Bool-cases (eq_text key k)) [
    | inl h ↦
        let same : eq_text other k ≡ false = ground (arith, apart, eq_text_iff key k, h) in
        rw (h, same) refl
    | inr h ↦ rw h (ground (arith, get-replace v fs))
  ]

  get-append_field : (v : Json) (fs : Fields) → get other (append_field key v fs) ≡ get other fs
  unfolding get append_field
  get-append_field v end = rw apart refl
  get-append_field v (field k w fs) = ground (arith, get-append_field v fs)

  get-insert_index :
      (n : ℕ) (v : Json) (fs : Fields) → get other (insert_index n key v fs) ≡ get other fs
  unfolding get insert_index
  get-insert_index n v end = rw apart refl
  get-insert_index n v (field k w fs) = elim (Bool-cases (comes_before n (index_key k))) [
    | inl h ↦ rw (h, apart) refl
    | inr h ↦ rw h (ground (arith, get-insert_index n v fs))
  ]

  -- A write under one key leaves the others.
  pub get-put : (v : Json) (fs : Fields) → get other (put key v fs) ≡ get other fs
  unfolding put
  get-put v fs = elim (Bool-cases (has_key key fs)) [
    | inl h ↦ rw h (get-replace v fs)
    | inr h ↦ elim (Bool-cases (eq_text key (lit "__proto__"))) [
      | inl p ↦ rw (h, p) refl
      | inr p ↦ elim (Option-cases (index_key key)) [
        | inl i ↦ rw (h, p, i) (get-append_field v fs)
        | inr (n, i) ↦ rw (h, p, i) (get-insert_index n v fs)
      ]
    ]
  ]

  pub get-remove : (fs : Fields) → get other (remove key fs) ≡ get other fs
  unfolding get remove
  get-remove end = refl
  get-remove (field k w fs) = elim (Bool-cases (eq_text key k)) [
    | inl h ↦
        let same : eq_text other k ≡ false = ground (arith, apart, eq_text_iff key k, h) in
        rw (h, same) refl
    | inr h ↦ rw h (ground (arith, get-remove fs))
  ]
