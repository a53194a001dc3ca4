-- ===== src/Policy/Lint/Report.antt =====
-- src/lib/policy/lint.ts: `lintPolicy`.
use headtower.Prelude.{Option, none, some, List, [], ◌++◌, map, Text, lit, any, if◌then◌else◌}
use headtower.Policy.Model.{PolicyModel, NamedList, HostEntry}
use headtower.Policy.Lint.{LintFinding, collect_ref_sites, each}
use headtower.Policy.Lint.References.{declared, reference_findings}
use headtower.Policy.Lint.Coverage.{CoverageContext, attr_targets}
use headtower.Policy.Lint.Sections.{
  group_findings, grant_findings, drive_findings, is_drive_grant, unused_findings,
  duplicate_findings,
}

module _ (lower : Text → Text) (model : PolicyModel) where
  abbrev lowered : NamedList → NamedList
  lowered row = record { name = row.name; values = map lower row.values }

  unfoldable pub coverage : List Text → CoverageContext
  coverage hosts = record { groups = map lowered model.groups; host_aliases = hosts }

  -- What follows the loop over the references.
  unfoldable pub section_findings : List Text → List LintFinding
  unfolding coverage each group_findings grant_findings drive_findings attr_targets is_drive_grant
      unused_findings duplicate_findings
  section_findings hosts =
      each group_findings 0 model.groups
      ++ each grant_findings 0 model.grants
      ++ each
          (drive_findings lower (coverage hosts) (attr_targets model.node_attrs (lit "drive:share"))
            (attr_targets model.node_attrs (lit "drive:access")))
          0 model.grants
      ++ (if any is_drive_grant model.grants then [] else each unused_findings 0 model.node_attrs)
      ++ duplicate_findings (lit "groups") (lit "group") (map NamedList.name model.groups)
      ++ duplicate_findings (lit "tagOwners") (lit "tag") (map NamedList.name model.tag_owners)
      ++ duplicate_findings (lit "hosts") (lit "host") (map HostEntry.name model.hosts)
      ++ duplicate_findings (lit "autoApprovers.routes") (lit "route")
          (map NamedList.name model.auto_approvers.routes)

  unfoldable pub reported : List Text → Option (List LintFinding) → Option (List LintFinding)
  unfolding section_findings
  reported hosts none = none
  reported hosts (some found) = some (found ++ section_findings hosts)

  -- `lintPolicy`, for the users that are known; `none` is an error that is thrown.
  unfoldable pub lint_policy : Option (List Text) → Option (List LintFinding)
  unfolding declared reference_findings collect_ref_sites reported
  lint_policy known_users =
      let names = declared lower model known_users in
      reported names.hosts (reference_findings lower names (collect_ref_sites model))
