-- ===== src/Policy/Model/Rules.antt =====
-- src/lib/policy/model.ts: a rule in the editor's shape is written back as it was.
use headtower.Prelude.{
  ◌≡◌, ◌≢◌, ap, refl, inl, inr, false, Option, none, some, List, [], ◌∷◌, map, Text, lit, All,
  Bool-cases,
}
use headtower.Json.{
  null, bool, num, Json, str, arr, obj, Fields, end, field, get, put, texts, of_items,
}
use headtower.Json.Objects.{has_key-get, no_key-get, put_same, remove_absent}
use headtower.Policy.Model.Parse.{
  as_object, strings, to_string_array, string_or, objects_in, objects_of, parse_acl, parse_ssh_rule,
  parse_node_attr, parse_grant,
}
use headtower.Policy.Model.Write.{
  emit, non_empty, set_or_drop, list, objects, or_new, action_or_accept, serialize_acl,
  serialize_ssh, emit_app, serialize_node_attr, serialize_grant,
}
use headtower.Policy.Model.Canonical.{
  ListAt, ListOrAbsent, ActionAt, AppAt, CanonicalAcl, CanonicalSsh, CanonicalNodeAttr,
  CanonicalGrant, RulesAt,
}

pub strings-texts : (values : List Text) → strings (texts values) ≡ values
unfolding strings texts
strings-texts [] = refl
strings-texts (s ∷ values) = ap (◌∷◌ s) (strings-texts values)

-- What a section that is written as it was read does to the object.
pub emit_kept :
    (key : Text) (built : Json) (fs : Fields) → get key fs ≡ some built → emit fs key built fs ≡ fs
unfolding emit set_or_drop
emit_kept key built fs e = elim (Bool-cases (non_empty built)) [
  | inl n ↦ rw n (put_same key built fs e)
  | inr n ↦ rw (n, has_key-get key fs built e) (put_same key built fs e)
]

pub emit_absent :
    (key : Text) (built : Json) (fs : Fields)
    → get key fs ≡ none
    → non_empty built ≡ false
    → emit fs key built fs ≡ fs
unfolding emit set_or_drop
emit_absent key built fs e n = rw (n, no_key-get key fs e) (remove_absent key fs e)

module _ (fs : Fields) (key : Text) where
  list_read : ListAt key fs → get key fs ≡ some (list (to_string_array (get key fs)))
  unfolding to_string_array
  list_read (values, e) = rw (e, strings-texts values) refl

  put-list : ListAt key fs → put key (list (to_string_array (get key fs))) fs ≡ fs
  put-list l = put_same key _ fs (list_read l)

  pub emit-list : ListOrAbsent key fs → emit fs key (list (to_string_array (get key fs))) fs ≡ fs
  unfolding to_string_array non_empty texts
  emit-list (inl e) = rw e (emit_absent key _ fs e refl)
  emit-list (inr l) = emit_kept key _ fs (list_read l)

put_action :
    (rule : Fields)
    → ActionAt rule
    → put
        (lit "action")
        (str (action_or_accept (string_or (lit "accept") (get (lit "action") rule))))
        rule
      ≡ rule
unfolding action_or_accept string_or
put_action rule (action, (e, n)) = put_same (lit "action") _ rule (rw (e, n) refl)

pub serialize_acl-parse :
    (rule : Fields) → CanonicalAcl rule → serialize_acl (parse_acl rule) ≡ rule
unfolding serialize_acl parse_acl or_new
serialize_acl-parse rule (a, (s, d)) =
    rw (put_action rule a, put-list rule (lit "src") s) (put-list rule (lit "dst") d)

pub serialize_ssh-parse :
    (rule : Fields) → CanonicalSsh rule → serialize_ssh (parse_ssh_rule rule) ≡ rule
unfolding serialize_ssh parse_ssh_rule or_new
serialize_ssh-parse rule (a, (s, (d, u))) =
    rw (put_action rule a, put-list rule (lit "src") s, put-list rule (lit "dst") d)
      (put-list rule (lit "users") u)

app_written :
    (raw : Fields) (v : Option Json)
    → get (lit "app") raw ≡ v
    → v ≢ some (obj end)
    → emit_app raw (as_object v) raw ≡ raw
unfolding emit_app as_object
app_written raw none e h = rw (e, emit_app) refl
app_written raw (some (obj end)) e h = absurd (h refl)
app_written raw (some (obj (field k w fs))) e h = put_same (lit "app") _ raw e
app_written raw (some null) e h = rw (e, emit_app) refl
app_written raw (some (bool b)) e h = rw (e, emit_app) refl
app_written raw (some (num n)) e h = rw (e, emit_app) refl
app_written raw (some (str s)) e h = rw (e, emit_app) refl
app_written raw (some (arr vs)) e h = rw (e, emit_app) refl

app_kept : (raw : Fields) → AppAt raw → emit_app raw (as_object (get (lit "app") raw)) raw ≡ raw
app_kept raw h = app_written raw (get (lit "app") raw) refl h

pub serialize_node_attr-parse :
    (entry : Fields) → CanonicalNodeAttr entry → serialize_node_attr (parse_node_attr entry) ≡ entry
unfolding serialize_node_attr parse_node_attr or_new
serialize_node_attr-parse entry (t, (a, p)) =
    rw (put-list entry (lit "target") t, emit-list entry (lit "attr") a) (app_kept entry p)

pub serialize_grant-parse :
    (entry : Fields) → CanonicalGrant entry → serialize_grant (parse_grant entry) ≡ entry
unfolding serialize_grant parse_grant or_new
serialize_grant-parse entry (s, (d, (i, (v, p)))) =
    rw
      (
        put-list entry (lit "src") s,
        put-list entry (lit "dst") d,
        emit-list entry (lit "ip") i,
        emit-list entry (lit "via") v,
      )
      (app_kept entry p)

objects_in-map : (rules : List Fields) → objects_in (of_items (map obj rules)) ≡ rules
unfolding objects_in of_items
objects_in-map [] = refl
objects_in-map (r ∷ rules) = ap (◌∷◌ r) (objects_in-map rules)

-- A kind of rule that is written as it was read.
module _ {R : Type 0} (read : Fields → R) (write : R → Fields) (Shape : Fields → Type 0)
    (law : (fs : Fields) → Shape fs → write (read fs) ≡ fs) where
  rules_kept : (rules : List Fields) → All Shape rules → map write (map read rules) ≡ rules
  rules_kept [] s = refl
  rules_kept (r ∷ rules) (s, rest) = rw (law r s) (ap (◌∷◌ r) (rules_kept rules rest))

  pub emit-rules :
      (key : Text) (root : Fields)
      → RulesAt Shape key root
      → emit root key (objects (map write (map read (objects_of (get key root))))) root ≡ root
  unfolding objects_of non_empty of_items
  emit-rules key root (inl e) = rw e (emit_absent key _ root e refl)
  emit-rules key root (inr (rules, (e, s))) =
      emit_kept key _ root (rw (e, objects_in-map rules, rules_kept rules s) refl)
