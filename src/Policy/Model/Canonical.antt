-- ===== src/Policy/Model/Canonical.antt =====
-- src/lib/policy/model.ts: documents in the shape in which the editor writes them.
use headtower.Prelude.{
  ◌≡◌, ◌≢◌, ◌⊎◌, false, none, some, List, Text, lit, eq_text, is_empty, trim, All,
}
use headtower.Json.{str, obj, Fields, end, field, get, has_key, index_key, append_field}
use headtower.Policy.Model.Write.{list, objects}

-- A list of strings stands under a key, or it may be missing.
abbrev pub ListAt : Text → Fields → Type 0
ListAt key fs = (values : List Text) × (get key fs ≡ some (list values))

abbrev pub ListOrAbsent : Text → Fields → Type 0
ListOrAbsent key fs = (get key fs ≡ none) ⊎ ListAt key fs

-- A rule has an action.
abbrev pub ActionAt : Fields → Type 0
ActionAt rule =
    (action : Text) × ((get (lit "action") rule ≡ some (str action)) × (is_empty action ≡ false))

abbrev pub CanonicalAcl : Fields → Type 0
CanonicalAcl rule = ActionAt rule × (ListAt (lit "src") rule × ListAt (lit "dst") rule)

abbrev pub CanonicalSsh : Fields → Type 0
CanonicalSsh rule =
    ActionAt rule
    × (ListAt (lit "src") rule × (ListAt (lit "dst") rule × ListAt (lit "users") rule))

-- An application map, where there is one, has an entry.
abbrev pub AppAt : Fields → Type 0
AppAt entry = get (lit "app") entry ≢ some (obj end)

abbrev pub CanonicalNodeAttr : Fields → Type 0
CanonicalNodeAttr entry =
    ListAt (lit "target") entry × (ListOrAbsent (lit "attr") entry × AppAt entry)

abbrev pub CanonicalGrant : Fields → Type 0
CanonicalGrant entry =
    ListAt (lit "src") entry
    × (ListAt (lit "dst") entry
        × (ListOrAbsent (lit "ip") entry × (ListOrAbsent (lit "via") entry × AppAt entry)))

-- A section of rules, all of one shape, or none.
abbrev pub RulesAt : (Fields → Type 0) → Text → Fields → Type 0
RulesAt Shape key root =
    (get key root ≡ none)
    ⊎ ((rules : List Fields) × ((get key root ≡ some (objects rules)) × All Shape rules))

-- A name that an object keeps at its end: not blank, no array index, not `__proto__`, and new.
abbrev pub NewName : Fields → Text → Type 0
NewName earlier name =
    (is_empty (trim name) ≡ false)
    × ((has_key name earlier ≡ false)
        × ((eq_text name (lit "__proto__") ≡ false) × (index_key name ≡ none)))

-- Named rows after some earlier ones.
abbrev pub ListRows : Fields → Fields → Type 0
ListRows earlier end = Unit
ListRows earlier (field name v fs) =
    NewName earlier name
    × (((values : List Text) × (v ≡ list values)) × ListRows (append_field name v earlier) fs)

abbrev pub TextRows : Fields → Fields → Type 0
TextRows earlier end = Unit
TextRows earlier (field name v fs) =
    NewName earlier name
    × (((value : Text) × (v ≡ str value)) × TextRows (append_field name v earlier) fs)

-- A section of named rows, or none.
abbrev pub RowsAt : (Fields → Fields → Type 0) → Text → Fields → Type 0
RowsAt Rows key root =
    (get key root ≡ none) ⊎ ((fs : Fields) × ((get key root ≡ some (obj fs)) × Rows end fs))

abbrev pub ApproversAt : Fields → Type 0
ApproversAt root =
    (get (lit "autoApprovers") root ≡ none)
    ⊎ ((fs : Fields) × ((get (lit "autoApprovers") root ≡ some (obj fs))
          × (RowsAt ListRows (lit "routes") fs × ListOrAbsent (lit "exitNode") fs)))

-- The root of such a document: it may hold other keys, anywhere.
pub record Canonical (root : Fields) : Type 0 where
  pub groups : RowsAt ListRows (lit "groups") root
  pub tag_owners : RowsAt ListRows (lit "tagOwners") root
  pub hosts : RowsAt TextRows (lit "hosts") root
  pub acls : RulesAt CanonicalAcl (lit "acls") root
  pub ssh : RulesAt CanonicalSsh (lit "ssh") root
  pub node_attrs : RulesAt CanonicalNodeAttr (lit "nodeAttrs") root
  pub grants : RulesAt CanonicalGrant (lit "grants") root
  pub auto_approvers : ApproversAt root
