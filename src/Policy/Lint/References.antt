-- ===== src/Policy/Lint/References.antt =====
-- src/lib/policy/lint.ts: the loop over the references, with undeclared names and unknown users.
use headtower.Prelude.{
  Bool, true, false, not, ◌||◌, Option, none, some, List, [], ◌∷◌, ◌++◌, map, Text, lit, eq_text,
  has, keep, starts_with, is_empty, if◌then◌else◌,
}
use headtower.Language.{object_prototype}
use headtower.Policy.Model.{PolicyModel, NamedList, HostEntry}
use headtower.Policy.Tokens.{TokenKind, group, tag, user, classify_token}
use headtower.Policy.Lint.{
  LintFinding, RefSite, SitePosition, src, dst, ssh_users, group_members, other, matches_known_user,
  reference_part,
}

-- `AUTOGROUP_PLACEMENT`: the one position that is allowed, and its wording.
unfoldable pub own_placement : Text → Option (SitePosition × Text)
own_placement token =
    if eq_text token (lit "autogroup:internet") || eq_text token (lit "autogroup:self")
    then some (dst, lit "policy destinations")
    else if eq_text token (lit "autogroup:danger-all")
    then some (src, lit "sources")
    else if eq_text token (lit "autogroup:nonroot")
    then some (ssh_users, lit "the users field of SSH rules")
    else none

unfoldable pub eq_position : SitePosition → SitePosition → Bool
eq_position src src = true
eq_position dst dst = true
eq_position ssh_users ssh_users = true
eq_position group_members group_members = true
eq_position other other = true
eq_position _ _ = false

-- What the placement says of a token at a position: nothing, its wording where it is misplaced, or,
-- for a property that the table inherits, the error of reading `includes` of a missing `allowed`.
pub data Placement : Type 0 where
  fine : Placement
  misplaced : Text → Placement
  broken : Placement

unfoldable pub place : Option (SitePosition × Text) → Bool → SitePosition → Placement
unfolding eq_position
place (some (allowed, wording)) inherited position =
    if eq_position position allowed then fine else misplaced wording
place none inherited position = if inherited then broken else fine

unfoldable pub placement : Text → SitePosition → Placement
unfolding own_placement place
placement token position = place (own_placement token) (has token object_prototype) position

-- The names that the model declares, and the users that are known.
pub record Declared : Type 0 where
  pub groups : List Text
  pub tags : List Text
  pub hosts : List Text
  pub users : Option (List Text)

unfoldable pub declared : (Text → Text) → PolicyModel → Option (List Text) → Declared
declared lower model known = record {
  groups = keep (λ n. starts_with n (lit "group:")) (map NamedList.name model.groups);
  tags = keep (λ n. starts_with n (lit "tag:")) (map NamedList.name model.tag_owners);
  hosts = keep (λ n. not (is_empty n)) (map HostEntry.name model.hosts);
  users = elim known [ none ↦ none | some names ↦ some (map lower names) ];
}

-- A finding about a token, with its id from the code, the location and the token.
unfoldable pub finding : Text → Text → Text → Text → LintFinding
finding code location token message = record {
  id = code ++ lit ":" ++ location ++ lit ":" ++ token;
  code = code;
  message = message;
  location = location;
  token = some token;
}

abbrev pub quoted : Text → Text
quoted token = lit "\"" ++ token ++ lit "\""

unfoldable pub undeclared_group : Text → Text → LintFinding
unfolding finding
undeclared_group location token =
    finding (lit "undeclared-group") location token
      (lit "Group " ++ quoted token ++ lit " is used here but never declared under groups.")

unfoldable pub undeclared_tag : Text → Text → LintFinding
unfolding finding
undeclared_tag location token =
    finding (lit "undeclared-tag") location token
      (lit "Tag " ++ quoted token ++ lit " is used here but has no owner declared under tagOwners.")

unfoldable pub unknown_user : Text → Text → LintFinding
unfolding finding
unknown_user location token =
    finding (lit "unknown-user") location token
      (quoted token ++ lit " doesn't match any known tailnet user.")

unfoldable pub misplaced_autogroup : Text → Text → Text → LintFinding
unfolding finding
misplaced_autogroup location token wording =
    finding (lit "autogroup-placement") location token
      (quoted token ++ lit " can only be used in " ++ wording ++ lit ".")

module _ (lower : Text → Text) (names : Declared) where
  unfoldable pub user_finding : Text → Text → Option (List Text) → List LintFinding
  unfolding unknown_user matches_known_user
  user_finding location token none = []
  user_finding location token (some known) =
      if matches_known_user lower token known then [] else unknown_user location token ∷ []

  -- The end of the loop's body, by the kind of the token.
  unfoldable pub kind_findings : TokenKind → SitePosition → Text → Text → List LintFinding
  unfolding undeclared_group undeclared_tag user_finding eq_position
  kind_findings group position location token =
      if eq_position position group_members || has token names.groups
      then []
      else undeclared_group location token ∷ []
  kind_findings tag position location token =
      if has token names.tags then [] else undeclared_tag location token ∷ []
  kind_findings user position location token = user_finding location token names.users
  kind_findings _ position location token = []

  unfoldable pub placed_findings :
      Placement → SitePosition → Text → Text → Option (List LintFinding)
  unfolding misplaced_autogroup kind_findings
  placed_findings broken position location token = none
  placed_findings (misplaced wording) position location token =
      some (misplaced_autogroup location token wording ∷ [])
  placed_findings fine position location token =
      some (kind_findings (classify_token token names.hosts) position location token)

  -- The body of the loop for one raw token; `none` is an error that is thrown.
  unfoldable pub token_findings : SitePosition → Text → Text → Option (List LintFinding)
  unfolding reference_part placement placed_findings
  token_findings position location raw =
      let token = reference_part raw position in
      if is_empty token
      then some []
      else placed_findings (placement token position) position location token

  unfoldable pub both :
      Option (List LintFinding) → Option (List LintFinding) → Option (List LintFinding)
  both none later = none
  both (some here) none = none
  both (some here) (some later) = some (here ++ later)

  unfoldable pub gather :
      {A : Type 0} → (A → Option (List LintFinding)) → List A → Option (List LintFinding)
  unfolding both
  gather f [] = some []
  gather f (x ∷ xs) = both (f x) (gather f xs)

  unfoldable pub site_findings : RefSite → Option (List LintFinding)
  unfolding token_findings gather
  site_findings s = gather (token_findings s.position s.location) s.tokens

  unfoldable pub reference_findings : List RefSite → Option (List LintFinding)
  unfolding site_findings gather
  reference_findings sites = gather site_findings sites
