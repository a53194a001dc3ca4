-- ===== src/Policy/Model/Unknown.antt =====
-- src/lib/policy/model.ts: what the editor does not know survives a write.
use headtower.Prelude.{
  ◌≡◌, ◌∙◌, refl, arith, Bool, true, false, List, [], ◌∷◌, map, Text, lit, eq_text, eq_text_iff,
  has,
}
use headtower.Json.{obj, Json, Fields, get}
use headtower.Json.Objects.{get-put, get-remove}
use headtower.Policy.Model.{PolicyModel, AutoApprovers}
use headtower.Policy.Model.Write.{
  emit, set_or_drop, emit_auto_approvers, write_model, serialize_acl, serialize_ssh,
  serialize_grant, serialize_node_attr, objects, build_host_record, build_named_record,
}

-- The sections of the editor.
abbrev pub known_keys : List Text
known_keys =
    lit "groups"
    ∷ lit "tagOwners"
    ∷ lit "hosts"
    ∷ lit "acls"
    ∷ lit "ssh"
    ∷ lit "nodeAttrs"
    ∷ lit "grants"
    ∷ lit "autoApprovers"
    ∷ []

get-set_or_drop :
    (other key : Text) (c : Bool) (built : Json) (out : Fields)
    → eq_text other key ≡ false
    → get other (set_or_drop c key built out) ≡ get other out
unfolding set_or_drop
get-set_or_drop other key true built out apart = get-put other key apart built out
get-set_or_drop other key false built out apart = get-remove other key apart out

module _ (other : Text) (root : Fields) where
  get-emit :
      (key : Text) (built : Json) (out : Fields)
      → eq_text other key ≡ false
      → get other (emit root key built out) ≡ get other out
  unfolding emit
  get-emit key built out apart = get-set_or_drop other key _ built out apart

  get-emit_auto_approvers :
      (approvers : AutoApprovers) (out : Fields)
      → eq_text other (lit "autoApprovers") ≡ false
      → get other (emit_auto_approvers approvers root out) ≡ get other out
  unfolding emit_auto_approvers
  get-emit_auto_approvers approvers out apart = get-set_or_drop other _ _ _ out apart

apart_lem :
    (key section : Text) (keys : List Text)
    → has key keys ≡ false
    → has section keys ≡ true
    → eq_text key section ≡ false
unfolding has
apart_lem key section [] h k = cc
apart_lem key section (s ∷ keys) h k =
    ground (arith, h, k, apart_lem key section keys, eq_text_iff key section, eq_text_iff section s)

-- Whatever the model, serializePolicy leaves the value of every root key that is no section of
-- the editor.
pub get-write_model :
    (model : PolicyModel) (root : Fields) (key : Text)
    → has key known_keys ≡ false
    → get key (write_model model root) ≡ get key root
unfolding write_model has eq_text lit
get-write_model model root key unknown =
    let apart : (section : Text) → has section known_keys ≡ true → eq_text key section ≡ false =
      λ section k. apart_lem key section known_keys unknown k in
    get-emit_auto_approvers key root model.auto_approvers _ (apart (lit "autoApprovers") refl)
    ∙ get-emit key root (lit "grants") (objects (map serialize_grant model.grants)) _
        (apart (lit "grants") refl)
    ∙ get-emit key root (lit "nodeAttrs") (objects (map serialize_node_attr model.node_attrs)) _
        (apart (lit "nodeAttrs") refl)
    ∙ get-emit key root (lit "ssh") (objects (map serialize_ssh model.ssh)) _
        (apart (lit "ssh") refl)
    ∙ get-emit key root (lit "acls") (objects (map serialize_acl model.acls)) _
        (apart (lit "acls") refl)
    ∙ get-emit key root (lit "hosts") (obj (build_host_record model.hosts)) _
        (apart (lit "hosts") refl)
    ∙ get-emit key root (lit "tagOwners") (obj (build_named_record model.tag_owners)) _
        (apart (lit "tagOwners") refl)
    ∙ get-emit key root (lit "groups") (obj (build_named_record model.groups)) _
        (apart (lit "groups") refl)
