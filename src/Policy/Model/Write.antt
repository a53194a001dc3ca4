-- ===== src/Policy/Model/Write.antt =====
-- src/lib/policy/model.ts: the structured policy, written back over the root object it was read from.
use headtower.Prelude.{
  Bool, true, false, not, ◌||◌, Option, none, some, List, [], ◌∷◌, map, Text, lit, is_empty, trim,
  if◌then◌else◌,
}
use headtower.Json.{
  Json, str, arr, obj, nil, Fields, end, get, has_key, remove, put, texts, of_items, is_end,
}
use headtower.Policy.Model.{
  AclRule, SshRule, NamedList, HostEntry, AutoApprovers, NodeAttrEntry, GrantEntry, PolicyModel,
}
use headtower.Policy.Model.Parse.{as_object}

-- The loop of `buildNamedRecord`, on the record built so far.
unfoldable pub add_named : List NamedList → Fields → Fields
add_named [] built = built
add_named (row ∷ rows) built =
    let next =
      if is_empty (trim row.name) then built else put row.name (arr (texts row.values)) built in
    add_named rows next

-- `buildNamedRecord`
unfoldable pub build_named_record : List NamedList → Fields
unfolding add_named
build_named_record rows = add_named rows end

unfoldable pub add_hosts : List HostEntry → Fields → Fields
add_hosts [] built = built
add_hosts (row ∷ rows) built =
    let next = if is_empty (trim row.name) then built else put row.name (str row.cidr) built in
    add_hosts rows next

-- `buildHostRecord`
unfoldable pub build_host_record : List HostEntry → Fields
unfolding add_hosts
build_host_record rows = add_hosts rows end

-- `x ?? {}`
unfoldable pub or_new : Option Fields → Fields
or_new none = end
or_new (some fs) = fs

-- `rule.action || "accept"`
unfoldable pub action_or_accept : Text → Text
action_or_accept action = if is_empty action then lit "accept" else action

abbrev pub list : List Text → Json
list values = arr (texts values)

-- `serializeAcl`
unfoldable pub serialize_acl : AclRule → Fields
unfolding or_new action_or_accept
serialize_acl rule = put (lit "dst") (list rule.dst) (
    put (lit "src") (list rule.src)
      (put (lit "action") (str (action_or_accept rule.action)) (or_new rule.raw)))

-- `serializeSsh`
unfoldable pub serialize_ssh : SshRule → Fields
unfolding or_new action_or_accept
serialize_ssh rule = put (lit "users") (list rule.users) (
    put (lit "dst") (list rule.dst) (
      put (lit "src") (list rule.src)
        (put (lit "action") (str (action_or_accept rule.action)) (or_new rule.raw))))

-- `nonEmpty` of `emit`
unfoldable pub non_empty : Json → Bool
non_empty (arr nil) = false
non_empty (obj end) = false
non_empty _ = true

-- The two ends of `emit`: the assignment, or the deletion.
unfoldable pub set_or_drop : Bool → Text → Json → Fields → Fields
set_or_drop true key built out = put key built out
set_or_drop false key built out = remove key out

-- `emit`, on `out` last
unfoldable pub emit : Fields → Text → Json → Fields → Fields
unfolding non_empty set_or_drop
emit source key built out = set_or_drop (non_empty built || has_key key source) key built out

-- `emitApp`, on `out` last
unfoldable pub emit_app : Fields → Option Fields → Fields → Fields
unfolding as_object
emit_app raw app out =
    let dropped : Fields = elim (as_object (get (lit "app") raw)) [
      | none ↦ out
      | some _ ↦ remove (lit "app") out
    ] in
    elim app [
      | none ↦ dropped
      | some fs ↦ if is_end fs then dropped else put (lit "app") (obj fs) out
    ]

-- `serializeNodeAttr`
unfoldable pub serialize_node_attr : NodeAttrEntry → Fields
unfolding or_new emit emit_app
serialize_node_attr entry =
    let raw = or_new entry.raw in
    emit_app raw entry.app
      (emit raw (lit "attr") (list entry.attr) (put (lit "target") (list entry.target) raw))

-- `serializeGrant`
unfoldable pub serialize_grant : GrantEntry → Fields
unfolding or_new emit emit_app
serialize_grant entry =
    let raw = or_new entry.raw in
    emit_app raw entry.app (
      emit raw (lit "via") (list entry.via) (
        emit raw (lit "ip") (list entry.ip)
          (put (lit "dst") (list entry.dst) (put (lit "src") (list entry.src) raw))))

abbrev pub objects : List Fields → Json
objects rules = arr (of_items (map obj rules))

-- The nested record of `serializePolicy`, over its raw form.
unfoldable pub write_auto_approvers : AutoApprovers → Fields → Fields
unfolding build_named_record emit
write_auto_approvers approvers raw =
    emit raw (lit "exitNode") (list approvers.exit_node)
      (emit raw (lit "routes") (obj (build_named_record approvers.routes)) raw)

unfoldable pub emit_auto_approvers : AutoApprovers → Fields → Fields → Fields
unfolding write_auto_approvers as_object or_new set_or_drop
emit_auto_approvers approvers root out =
    let built =
      write_auto_approvers approvers (or_new (as_object (get (lit "autoApprovers") root))) in
    set_or_drop (not (is_end built) || has_key (lit "autoApprovers") root) (lit "autoApprovers")
      (obj built) out

-- The object that `serializePolicy` hands to `JSON.stringify`.
unfoldable pub write_model : PolicyModel → Fields → Fields
unfolding build_named_record build_host_record serialize_acl serialize_ssh serialize_node_attr
    serialize_grant emit emit_auto_approvers
write_model model root = emit_auto_approvers model.auto_approvers root (
    emit root (lit "grants") (objects (map serialize_grant model.grants)) (
      emit root (lit "nodeAttrs") (objects (map serialize_node_attr model.node_attrs)) (
        emit root (lit "ssh") (objects (map serialize_ssh model.ssh)) (
          emit root (lit "acls") (objects (map serialize_acl model.acls)) (
            emit root (lit "hosts") (obj (build_host_record model.hosts)) (
              emit root (lit "tagOwners") (obj (build_named_record model.tag_owners))
                (emit root (lit "groups") (obj (build_named_record model.groups)) root)))))))
