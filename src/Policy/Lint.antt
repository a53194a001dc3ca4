-- ===== src/Policy/Lint.antt =====
-- src/lib/policy/lint.ts: the findings and the places that hold references.
pub mod References
pub mod Coverage
pub mod Sections
pub mod Report
pub mod Verdicts
pub mod Names
pub mod Resolve
pub mod Throws
pub mod Tests
use headtower.Prelude.{
  ℕ, suc, ◌+◌, Bool, true, false, Option, none, some, List, [], ◌∷◌, ◌++◌, map, Text, lit, has,
  show, ends_with, drop_last, ◌||◌, ◌&&◌, if◌then◌else◌,
}
use headtower.Policy.Model.{PolicyModel, AclRule, SshRule, GrantEntry, NodeAttrEntry, NamedList}
use headtower.Policy.Tokens.{DstParts, split_dst_ports}

-- `LintFinding`; its severity is always `warn`.
pub record LintFinding : Type 0 where
  pub id : Text
  pub code : Text
  pub message : Text
  pub location : Text
  pub token : Option Text

-- `matchesKnownUser`, by the language's lower case
unfoldable pub matches_known_user : (Text → Text) → Text → List Text → Bool
matches_known_user lower token known_users =
    let needle = lower token in
    has needle known_users || (ends_with needle b'@' && has (drop_last needle) known_users)

-- `SitePosition`
pub data SitePosition : Type 0 where
  src dst ssh_users group_members other : SitePosition

-- `RefSite`
pub record RefSite : Type 0 where
  pub location : Text
  pub tokens : List Text
  pub position : SitePosition

-- `section[i]`
unfoldable pub at : Text → ℕ → Text
at section i = section ++ lit "[" ++ show i ++ lit "]"

unfoldable pub site : Text → List Text → SitePosition → RefSite
site location tokens position = record { location = location; tokens = tokens; position = position }

-- `list.forEach((x, i) => …)`, from an index, for what each call adds
unfoldable pub each : {A B : Type 0} → (ℕ → A → List B) → ℕ → List A → List B
each f i [] = []
each f i (x ∷ xs) = f i x ++ each f (suc i) xs

unfoldable pub acl_sites : ℕ → AclRule → List RefSite
unfolding at site
acl_sites i rule =
    site (at (lit "acls") i ++ lit ".src") rule.src src
    ∷ site (at (lit "acls") i ++ lit ".dst") rule.dst dst
    ∷ []

unfoldable pub ssh_sites : ℕ → SshRule → List RefSite
unfolding at site
ssh_sites i rule =
    site (at (lit "ssh") i ++ lit ".src") rule.src src
    ∷ site (at (lit "ssh") i ++ lit ".dst") rule.dst dst
    ∷ site (at (lit "ssh") i ++ lit ".users") rule.users ssh_users
    ∷ []

unfoldable pub grant_sites : ℕ → GrantEntry → List RefSite
unfolding at site
grant_sites i grant =
    site (at (lit "grants") i ++ lit ".src") grant.src src
    ∷ site (at (lit "grants") i ++ lit ".dst") grant.dst dst
    ∷ site (at (lit "grants") i ++ lit ".via") grant.via other
    ∷ []

unfoldable pub target_sites : ℕ → NodeAttrEntry → List RefSite
unfolding at site
target_sites i entry = site (at (lit "nodeAttrs") i ++ lit ".target") entry.target other ∷ []

unfoldable pub named_sites : Text → Text → SitePosition → ℕ → NamedList → List RefSite
unfolding at site
named_sites section suffix position i row = site (at section i ++ suffix) row.values position ∷ []

-- `collectRefSites`
unfoldable pub collect_ref_sites : PolicyModel → List RefSite
unfolding each acl_sites ssh_sites grant_sites target_sites named_sites site
collect_ref_sites model =
    each acl_sites 0 model.acls
    ++ each ssh_sites 0 model.ssh
    ++ each grant_sites 0 model.grants
    ++ each target_sites 0 model.node_attrs
    ++ each (named_sites (lit "tagOwners") (lit ".owners") other) 0 model.tag_owners
    ++ each (named_sites (lit "groups") (lit ".members") group_members) 0 model.groups
    ++ each (named_sites (lit "autoApprovers.routes") [] other) 0 model.auto_approvers.routes
    ++ site (lit "autoApprovers.exitNode") model.auto_approvers.exit_node other ∷ []

-- `referencePart`, by the position of the site
unfoldable pub reference_part : Text → SitePosition → Text
reference_part token dst = (split_dst_ports token).host
reference_part token _ = token
