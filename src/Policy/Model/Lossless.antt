-- ===== src/Policy/Model/Lossless.antt =====
-- src/lib/policy/model.ts: reading a document and writing it back.
use headtower.Prelude.{
  ◌≡◌, refl, inl, inr, arith, Bool, true, false, not, ◌||◌, Option, none, some, Text, lit,
}
use headtower.Json.{texts, remove, Json, obj, Fields, end, get, has_key, is_end}
use headtower.Json.Objects.{has_key-get, no_key-get, put_same, remove_absent}
use headtower.Policy.Model.{AutoApprovers}
use headtower.Policy.Model.Parse.{
  as_object, parse_model, parse_named_lists, parse_acl, parse_ssh_rule, parse_node_attr,
  parse_grant, parse_acls, parse_ssh, parse_node_attrs, parse_grants, parse_auto_approvers,
  to_string_array,
}
use headtower.Policy.Model.Write.{
  emit, non_empty, set_or_drop, or_new, write_model, write_auto_approvers, emit_auto_approvers,
  serialize_acl, serialize_ssh, serialize_node_attr, serialize_grant, build_named_record, add_named,
}
use headtower.Policy.Model.Canonical.{
  Canonical, ApproversAt, RowsAt, ListRows, ListOrAbsent, CanonicalAcl, CanonicalSsh,
  CanonicalNodeAttr, CanonicalGrant,
}
use headtower.Policy.Model.Rules.{
  emit-list, emit-rules, serialize_acl-parse, serialize_ssh-parse, serialize_node_attr-parse,
  serialize_grant-parse,
}
use headtower.Policy.Model.Rows.{emit-named, emit-hosts}

abbrev read_back : Fields → AutoApprovers
read_back fs = record {
  routes = parse_named_lists (get (lit "routes") fs);
  exit_node = to_string_array (get (lit "exitNode") fs);
}

approvers_kept :
    (fs : Fields)
    → RowsAt ListRows (lit "routes") fs
    → ListOrAbsent (lit "exitNode") fs
    → write_auto_approvers (read_back fs) fs ≡ fs
unfolding write_auto_approvers
approvers_kept fs r x = rw (emit-named (lit "routes") fs r) (emit-list fs (lit "exitNode") x)

set_kept :
    (c : Bool) (key : Text) (v : Json) (fs : Fields)
    → c ≡ true
    → get key fs ≡ some v
    → set_or_drop c key v fs ≡ fs
unfolding set_or_drop
set_kept true key v fs h e = put_same key v fs e
set_kept false key v fs h e = cc

built_none : write_auto_approvers (parse_auto_approvers none) (or_new (as_object none)) ≡ end
unfolding write_auto_approvers parse_auto_approvers as_object or_new emit non_empty set_or_drop
    has_key remove texts build_named_record add_named
built_none = refl

built_some :
    (fs : Fields)
    → RowsAt ListRows (lit "routes") fs
    → ListOrAbsent (lit "exitNode") fs
    → write_auto_approvers
        (parse_auto_approvers (some (obj fs)))
        (or_new (as_object (some (obj fs))))
      ≡ fs
unfolding parse_auto_approvers as_object or_new
built_some fs r x = approvers_kept fs r x

-- The nested record, for what stands under its key.
nested_kept :
    (root : Fields) (v : Option Json) (built : Fields)
    → get (lit "autoApprovers") root ≡ v
    → write_auto_approvers (parse_auto_approvers v) (or_new (as_object v)) ≡ built
    → set_or_drop
        (not (is_end built) || has_key (lit "autoApprovers") root)
        (lit "autoApprovers")
        (obj built)
        root
      ≡ root
    → emit_auto_approvers (parse_auto_approvers (get (lit "autoApprovers") root)) root root ≡ root
unfolding emit_auto_approvers
nested_kept root v built e b h = rw (e, b) h

emit-approvers :
    (root : Fields)
    → ApproversAt root
    → emit_auto_approvers (parse_auto_approvers (get (lit "autoApprovers") root)) root root ≡ root
unfolding set_or_drop
emit-approvers root (inl e) =
    nested_kept root none end e built_none
      (rw (no_key-get (lit "autoApprovers") root e) (remove_absent (lit "autoApprovers") root e))
emit-approvers root (inr (fs, (e, (r, x)))) =
    nested_kept root (some (obj fs)) fs e (built_some fs r x) (
      set_kept _ (lit "autoApprovers") (obj fs) root
        (ground (arith, has_key-get (lit "autoApprovers") root (obj fs) e)) e)

-- A root object in the editor's shape, whatever other keys it has and wherever they stand, is
-- written back by serializePolicy exactly as parsePolicy read it, the order of its keys included.
pub write_model-parse :
    (root : Fields) → Canonical root → write_model (parse_model root) root ≡ root
unfolding write_model parse_model parse_acls parse_ssh parse_node_attrs parse_grants
write_model-parse root c =
    rw
      (
        emit-named (lit "groups") root c.groups,
        emit-named (lit "tagOwners") root c.tag_owners,
        emit-hosts (lit "hosts") root c.hosts,
        emit-rules parse_acl serialize_acl CanonicalAcl serialize_acl-parse (lit "acls") root
            c.acls,
        emit-rules parse_ssh_rule serialize_ssh CanonicalSsh serialize_ssh-parse (lit "ssh") root
            c.ssh,
        emit-rules parse_node_attr serialize_node_attr CanonicalNodeAttr serialize_node_attr-parse
            (lit "nodeAttrs") root c.node_attrs,
        emit-rules parse_grant serialize_grant CanonicalGrant serialize_grant-parse (lit "grants")
            root c.grants,
      )
      (emit-approvers root c.auto_approvers)
