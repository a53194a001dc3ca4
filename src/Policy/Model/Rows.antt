-- ===== src/Policy/Model/Rows.antt =====
-- src/lib/policy/model.ts: a section of named rows in the editor's shape is built as it was.
use headtower.Prelude.{
  ◌≡◌, ◌∙◌, ap, sym, refl, inl, inr, some, List, [], Text, is_empty, trim, if◌then◌else◌,
}
use headtower.Json.{Json, str, obj, Fields, end, field, get, put, append_field}
use headtower.Policy.Model.Parse.{
  as_object, to_string_array, string_or, named_rows, host_rows, parse_named_lists, parse_hosts,
}
use headtower.Policy.Model.Write.{
  add_named, build_named_record, add_hosts, build_host_record, emit, non_empty, list,
}
use headtower.Policy.Model.Canonical.{NewName, ListRows, TextRows, RowsAt}
use headtower.Policy.Model.Rules.{strings-texts, emit_kept, emit_absent}

-- The entries of one object after those of another.
join : Fields → Fields → Fields
join end gs = gs
join (field k v fs) gs = field k v (join fs gs)

join-append_field :
    (name : Text) (v : Json) (fs gs : Fields)
    → join (append_field name v fs) gs ≡ join fs (field name v gs)
unfolding join append_field
join-append_field name v end gs = refl
join-append_field name v (field k w fs) gs = ap (λ r. field k w r) (join-append_field name v fs gs)

join_end : (fs : Fields) → join fs end ≡ fs
unfolding join
join_end end = refl
join_end (field k v fs) = ap (λ r. field k v r) (join_end fs)

list_texts : (values : List Text) → list (to_string_array (some (list values))) ≡ list values
unfolding to_string_array
list_texts values = ap list (strings-texts values)

str_read : (value : Text) → str (string_or [] (some (str value))) ≡ str value
unfolding string_or
str_read value = refl

put_new :
    (earlier : Fields) (name : Text) (v : Json)
    → NewName earlier name
    → put name v earlier ≡ append_field name v earlier
unfolding put
put_new earlier name v (b, (h, (p, i))) = rw (h, p, i) refl

written_new :
    (earlier : Fields) (name : Text) (v : Json)
    → NewName earlier name
    → (if is_empty (trim name) then earlier else put name v earlier) ≡ append_field name v earlier
written_new earlier name v n = rw n.0 (put_new earlier name v n)

add_named-rows :
    (earlier fs : Fields)
    → ListRows earlier fs
    → add_named (named_rows fs) earlier ≡ join earlier fs
unfolding add_named named_rows
add_named-rows earlier end r = sym (join_end earlier)
add_named-rows earlier (field name v fs) (n, ((values, e), rest)) =
    let read : list (to_string_array (some v)) ≡ v = rw e (list_texts values) in
    let here =
      written_new earlier name (list (to_string_array (some v))) n
      ∙ ap (λ w. append_field name w earlier) read in
    ap (add_named (named_rows fs)) here
    ∙ add_named-rows (append_field name v earlier) fs rest
    ∙ join-append_field name v earlier fs

add_hosts-rows :
    (earlier fs : Fields) → TextRows earlier fs → add_hosts (host_rows fs) earlier ≡ join earlier fs
unfolding add_hosts host_rows
add_hosts-rows earlier end r = sym (join_end earlier)
add_hosts-rows earlier (field name v fs) (n, ((value, e), rest)) =
    let read : str (string_or [] (some v)) ≡ v = rw e (str_read value) in
    let here =
      written_new earlier name (str (string_or [] (some v))) n
      ∙ ap (λ w. append_field name w earlier) read in
    ap (add_hosts (host_rows fs)) here
    ∙ add_hosts-rows (append_field name v earlier) fs rest
    ∙ join-append_field name v earlier fs

-- A section of named rows is written as it was read.
pub emit-named :
    (key : Text) (root : Fields)
    → RowsAt ListRows key root
    → emit root key (obj (build_named_record (parse_named_lists (get key root)))) root ≡ root
unfolding build_named_record parse_named_lists as_object non_empty join
emit-named key root (inl e) = rw e (emit_absent key _ root e refl)
emit-named key root (inr (fs, (e, r))) = emit_kept key _ root (rw (e, add_named-rows end fs r) refl)

pub emit-hosts :
    (key : Text) (root : Fields)
    → RowsAt TextRows key root
    → emit root key (obj (build_host_record (parse_hosts (get key root)))) root ≡ root
unfolding build_host_record parse_hosts as_object non_empty join
emit-hosts key root (inl e) = rw e (emit_absent key _ root e refl)
emit-hosts key root (inr (fs, (e, r))) = emit_kept key _ root (rw (e, add_hosts-rows end fs r) refl)
