-- ===== src/Policy/Model.antt =====
-- src/lib/policy/model.ts: the structured policy, read from a parsed document and written back.
pub mod Parse
pub mod Write
pub mod Unknown
pub mod Canonical
pub mod Rows
pub mod Rules
pub mod Lossless
use headtower.Prelude.{Option, List, [], Text}
use headtower.Json.{Fields}

-- `AclRule`
pub record AclRule : Type 0 where
  pub action : Text
  pub src : List Text
  pub dst : List Text
  pub raw : Option Fields

-- `SshRule`
pub record SshRule : Type 0 where
  pub action : Text
  pub src : List Text
  pub dst : List Text
  pub users : List Text
  pub raw : Option Fields

-- `NamedList`
pub record NamedList : Type 0 where
  pub name : Text
  pub values : List Text

-- `HostEntry`
pub record HostEntry : Type 0 where
  pub name : Text
  pub cidr : Text

-- `AutoApprovers`
pub record AutoApprovers : Type 0 where
  pub routes : List NamedList
  pub exit_node : List Text

-- `NodeAttrEntry`
pub record NodeAttrEntry : Type 0 where
  pub target : List Text
  pub attr : List Text
  pub app : Option Fields
  pub raw : Option Fields

-- `GrantEntry`
pub record GrantEntry : Type 0 where
  pub src : List Text
  pub dst : List Text
  pub ip : List Text
  pub via : List Text
  pub app : Option Fields
  pub raw : Option Fields

-- `PolicyModel`
pub record PolicyModel : Type 0 where
  pub groups : List NamedList
  pub tag_owners : List NamedList
  pub hosts : List HostEntry
  pub acls : List AclRule
  pub ssh : List SshRule
  pub node_attrs : List NodeAttrEntry
  pub grants : List GrantEntry
  pub auto_approvers : AutoApprovers

-- `emptyModel`
abbrev pub empty_model : PolicyModel
empty_model = record {
  groups = [];
  tag_owners = [];
  hosts = [];
  acls = [];
  ssh = [];
  node_attrs = [];
  grants = [];
  auto_approvers = record { routes = []; exit_node = [] };
}
