-- ===== src/Policy/Model/Parse.antt =====
-- src/lib/policy/model.ts: the structured policy, read from the root object of a document.
use headtower.Prelude.{Option, none, some, List, [], ◌∷◌, map, Text, lit}
use headtower.Json.{Json, str, arr, obj, Items, nil, cons, Fields, end, field, get}
use headtower.Policy.Model.{
  AclRule, SshRule, NamedList, HostEntry, AutoApprovers, NodeAttrEntry, GrantEntry, PolicyModel,
}

-- `isObject`, for a property that may be missing
unfoldable pub as_object : Option Json → Option Fields
as_object (some (obj fs)) = some fs
as_object _ = none

-- The strings of an array.
unfoldable pub strings : Items → List Text
strings nil = []
strings (cons (str s) vs) = s ∷ strings vs
strings (cons _ vs) = strings vs

-- `toStringArray`
unfoldable pub to_string_array : Option Json → List Text
unfolding strings
to_string_array (some (arr vs)) = strings vs
to_string_array (some (str s)) = s ∷ []
to_string_array _ = []

-- `typeof v === "string" ? v : otherwise`
unfoldable pub string_or : Text → Option Json → Text
string_or otherwise (some (str s)) = s
string_or otherwise _ = otherwise

-- The objects of an array, none where the value is no array: `value.filter(isObject)`.
unfoldable pub objects_in : Items → List Fields
objects_in nil = []
objects_in (cons (obj fs) vs) = fs ∷ objects_in vs
objects_in (cons _ vs) = objects_in vs

unfoldable pub objects_of : Option Json → List Fields
unfolding objects_in
objects_of (some (arr vs)) = objects_in vs
objects_of _ = []

-- `Object.entries(value).map(…)` of the two kinds of named rows.
unfoldable pub named_rows : Fields → List NamedList
unfolding to_string_array
named_rows end = []
named_rows (field name v fs) =
    record { name = name; values = to_string_array (some v) } ∷ named_rows fs

unfoldable pub host_rows : Fields → List HostEntry
unfolding string_or
host_rows end = []
host_rows (field name v fs) = record { name = name; cidr = string_or [] (some v) } ∷ host_rows fs

-- `parseNamedLists`
unfoldable pub parse_named_lists : Option Json → List NamedList
unfolding as_object named_rows
parse_named_lists v = elim (as_object v) [ none ↦ [] | some fs ↦ named_rows fs ]

-- `parseHosts`
unfoldable pub parse_hosts : Option Json → List HostEntry
unfolding as_object host_rows
parse_hosts v = elim (as_object v) [ none ↦ [] | some fs ↦ host_rows fs ]

unfoldable pub parse_acl : Fields → AclRule
unfolding string_or to_string_array
parse_acl rule = record {
  action = string_or (lit "accept") (get (lit "action") rule);
  src = to_string_array (get (lit "src") rule);
  dst = to_string_array (get (lit "dst") rule);
  raw = some rule;
}

-- `parseAcls`
unfoldable pub parse_acls : Option Json → List AclRule
unfolding objects_of parse_acl
parse_acls v = map parse_acl (objects_of v)

unfoldable pub parse_ssh_rule : Fields → SshRule
unfolding string_or to_string_array
parse_ssh_rule rule = record {
  action = string_or (lit "accept") (get (lit "action") rule);
  src = to_string_array (get (lit "src") rule);
  dst = to_string_array (get (lit "dst") rule);
  users = to_string_array (get (lit "users") rule);
  raw = some rule;
}

-- `parseSsh`
unfoldable pub parse_ssh : Option Json → List SshRule
unfolding objects_of parse_ssh_rule
parse_ssh v = map parse_ssh_rule (objects_of v)

unfoldable pub parse_node_attr : Fields → NodeAttrEntry
unfolding as_object to_string_array
parse_node_attr entry = record {
  target = to_string_array (get (lit "target") entry);
  attr = to_string_array (get (lit "attr") entry);
  app = as_object (get (lit "app") entry);
  raw = some entry;
}

-- `parseNodeAttrs`
unfoldable pub parse_node_attrs : Option Json → List NodeAttrEntry
unfolding objects_of parse_node_attr
parse_node_attrs v = map parse_node_attr (objects_of v)

unfoldable pub parse_grant : Fields → GrantEntry
unfolding as_object to_string_array
parse_grant entry = record {
  src = to_string_array (get (lit "src") entry);
  dst = to_string_array (get (lit "dst") entry);
  ip = to_string_array (get (lit "ip") entry);
  via = to_string_array (get (lit "via") entry);
  app = as_object (get (lit "app") entry);
  raw = some entry;
}

-- `parseGrants`
unfoldable pub parse_grants : Option Json → List GrantEntry
unfolding objects_of parse_grant
parse_grants v = map parse_grant (objects_of v)

-- `parseAutoApprovers`
unfoldable pub parse_auto_approvers : Option Json → AutoApprovers
unfolding as_object parse_named_lists to_string_array
parse_auto_approvers v = elim (as_object v) [
  | none ↦ record { routes = []; exit_node = [] }
  | some fs ↦ record {
    routes = parse_named_lists (get (lit "routes") fs);
    exit_node = to_string_array (get (lit "exitNode") fs);
  }
]

-- The model of `parsePolicy` for a root object.
unfoldable pub parse_model : Fields → PolicyModel
unfolding parse_named_lists parse_hosts parse_acls parse_ssh parse_node_attrs parse_grants
    parse_auto_approvers
parse_model root = record {
  groups = parse_named_lists (get (lit "groups") root);
  tag_owners = parse_named_lists (get (lit "tagOwners") root);
  hosts = parse_hosts (get (lit "hosts") root);
  acls = parse_acls (get (lit "acls") root);
  ssh = parse_ssh (get (lit "ssh") root);
  node_attrs = parse_node_attrs (get (lit "nodeAttrs") root);
  grants = parse_grants (get (lit "grants") root);
  auto_approvers = parse_auto_approvers (get (lit "autoApprovers") root);
}
