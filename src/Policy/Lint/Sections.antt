-- ===== src/Policy/Lint/Sections.antt =====
-- src/lib/policy/lint.ts: the findings about groups, grants, Taildrive and repeated names.
use headtower.Prelude.{
  ℕ, suc, Bool, false, ◌||◌, Option, none, some, List, [], ◌∷◌, ◌++◌, Text, lit, eq_text, trim,
  starts_with, is_empty, if◌then◌else◌,
}
use headtower.Json.{has_key}
use headtower.Policy.Model.{NamedList, GrantEntry, NodeAttrEntry}
use headtower.Policy.Tokens.{DstParts, split_dst_ports}
use headtower.Policy.Lint.{LintFinding, at, each}
use headtower.Policy.Lint.References.{finding, quoted}
use headtower.Policy.Lint.Coverage.{CoverageContext, provably_uncovered}

-- A finding without a token.
unfoldable pub plain_finding : Text → Text → Text → LintFinding
plain_finding code location message = record {
  id = code ++ lit ":" ++ location;
  code = code;
  message = message;
  location = location;
  token = none;
}

unfoldable pub nested_group : ℕ → NamedList → ℕ → Text → List LintFinding
unfolding at finding
nested_group i row j token =
    if starts_with token (lit "group:")
    then finding (lit "nested-group") (at (lit "groups") i ++ lit ".members") token (
        quoted token
        ++ lit " is a group: groups cannot contain other groups. List the members directly.")
      ∷ []
    else []

-- `Groups may not contain groups`
unfoldable pub group_findings : ℕ → NamedList → List LintFinding
unfolding each nested_group
group_findings i row = each (nested_group i row) 0 row.values

unfoldable pub port_finding : Text → Text → DstParts → List LintFinding
unfolding finding
port_finding location token parts = elim parts.ports [
  | none ↦ []
  | some ports ↦
      finding (lit "grant-dst-ports") location token (
        quoted token
        ++ lit " carries a port spec. In a grant the ports move to the ip field: dst ["
        ++ quoted parts.host
        ++ lit "] with ip ["
        ++ quoted ports
        ++ lit "].")
      ∷ []
]

-- The loop over the grants.
unfoldable pub grant_findings : ℕ → GrantEntry → List LintFinding
unfolding each port_finding plain_finding at
grant_findings i grant =
    each (λ j token. port_finding (at (lit "grants") i ++ lit ".dst") token (split_dst_ports token))
      0 grant.dst
    ++ elim grant.app [
      | some app ↦ []
      | none ↦
          if is_empty grant.ip
          then plain_finding (lit "grant-no-capability") (at (lit "grants") i) (
              lit
                "This grant carries neither ports (ip) nor an application capability (app), so it grants nothing.")
            ∷ []
          else []
    ]

-- `DRIVE_CAP`
abbrev pub drive_cap : Text
drive_cap = lit "tailscale.com/cap/drive"

-- `grant.app !== undefined && DRIVE_CAP in grant.app`; the name is none that a plain object inherits
unfoldable pub is_drive_grant : GrantEntry → Bool
is_drive_grant grant = elim grant.app [ none ↦ false | some app ↦ has_key drive_cap app ]

module _ (lower : Text → Text) (ctx : CoverageContext) (shares accesses : List Text) where
  -- The two Taildrive findings of a grant.
  unfoldable pub drive_findings : ℕ → GrantEntry → List LintFinding
  unfolding is_drive_grant provably_uncovered plain_finding at
  drive_findings i grant =
      let share =
        if provably_uncovered lower ctx grant.dst shares
        then plain_finding (lit "drive-share-missing") (at (lit "grants") i ++ lit ".dst") (
            lit
              "Taildrive grant without effect: nothing under nodeAttrs gives its destination the \"drive:share\" attribute.")
          ∷ []
        else [] in
      let access =
        if provably_uncovered lower ctx grant.src accesses
        then plain_finding (lit "drive-access-missing") (at (lit "grants") i ++ lit ".src") (
            lit
              "Taildrive grant without effect: nothing under nodeAttrs gives its source the \"drive:access\" attribute.")
          ∷ []
        else [] in
      if is_drive_grant grant then share ++ access else []

unfoldable pub unused_attr : ℕ → ℕ → Text → List LintFinding
unfolding at
unused_attr i j attr =
    if eq_text attr (lit "drive:share") || eq_text attr (lit "drive:access")
    then record {
      id = lit "drive-attr-unused:" ++ at (lit "nodeAttrs") i ++ lit ":" ++ attr;
      code = lit "drive-attr-unused";
      message =
          quoted attr
          ++ lit " has no effect: no grant carries the "
          ++ drive_cap
          ++ lit " capability.";
      location = at (lit "nodeAttrs") i ++ lit ".attr";
      token = some attr;
    }
      ∷ []
    else []

unfoldable pub unused_findings : ℕ → NodeAttrEntry → List LintFinding
unfolding each unused_attr
unused_findings i entry = each (unused_attr i) 0 entry.attr

-- The names that `duplicateFindings` has seen, each with the index of its definition.
abbrev pub Seen : Type 0
Seen = List (Text × ℕ)

unfoldable pub seen_at : Text → Seen → Option ℕ
seen_at key [] = none
seen_at key ((name, i) ∷ seen) = if eq_text key name then some i else seen_at key seen

module _ (section label : Text) where
  unfoldable pub duplicate_finding : ℕ → Text → ℕ → LintFinding
  unfolding at
  duplicate_finding i key first = record {
    id = lit "duplicate-" ++ label ++ lit ":" ++ at section i ++ lit ":" ++ key;
    code = lit "duplicate-" ++ label;
    message =
        lit "Duplicate "
        ++ label
        ++ lit " "
        ++ quoted key
        ++ lit " - the later definition shadows the first (declared at "
        ++ at section first
        ++ lit ").";
    location = at section i ++ lit ".name";
    token = some key;
  }

  -- The loop of `duplicateFindings`, from an index and what has been seen.
  unfoldable pub duplicates_from : ℕ → Seen → List Text → List LintFinding
  unfolding seen_at duplicate_finding
  duplicates_from i seen [] = []
  duplicates_from i seen (name ∷ names) =
      let key = trim name in
      let skip = duplicates_from (suc i) seen names in
      let enter = duplicates_from (suc i) ((key, i) ∷ seen) names in
      if is_empty key then skip else elim (seen_at key seen) [
        | some first ↦ duplicate_finding i key first ∷ skip
        | none ↦ enter
      ]

  -- `duplicateFindings`
  unfoldable pub duplicate_findings : List Text → List LintFinding
  unfolding duplicates_from
  duplicate_findings names = duplicates_from 0 [] names
