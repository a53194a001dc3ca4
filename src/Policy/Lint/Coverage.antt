-- ===== src/Policy/Lint/Coverage.antt =====
-- src/lib/policy/lint.ts: whether targets cover a selector, as far as that can be told.
use headtower.Prelude.{
  Bool, true, false, not, ◌&&◌, ◌||◌, Option, none, some, List, [], ◌∷◌, ◌++◌, Text, lit, eq_text,
  has, all, any, starts_with, ends_with, drop_last, is_empty, if◌then◌else◌,
}
use headtower.Policy.Model.{NamedList, NodeAttrEntry}
use headtower.Policy.Tokens.{TokenKind, group, tag, user, classify_token}

-- `Coverage`
pub data Coverage : Type 0 where
  covered uncovered unknown : Coverage

-- `CoverageContext`: a `Map` of the groups, and the host aliases.
pub record CoverageContext : Type 0 where
  pub groups : List NamedList
  pub host_aliases : List Text

-- `groups.get(name)` of `new Map(rows)`: the last row of a name counts.
unfoldable pub members_of : Text → List NamedList → Option (List Text)
members_of name [] = none
members_of name (row ∷ rows) =
    let later = members_of name rows in
    elim later [
      | some values ↦ some values
      | none ↦ if eq_text name row.name then some row.values else none
    ]

abbrev pub is_user : TokenKind → Bool
is_user user = true
is_user _ = false

-- `isUserGroup`, for the members that the group has
unfoldable pub is_user_group : CoverageContext → Option (List Text) → Coverage
is_user_group ctx none = unknown
is_user_group ctx (some []) = unknown
is_user_group ctx (some (m ∷ ms)) =
    if all (λ x. is_user (classify_token x ctx.host_aliases)) (m ∷ ms) then covered else unknown

-- `autogroup:member` for a kind of token
unfoldable pub member_covers : CoverageContext → Text → TokenKind → Coverage
unfolding is_user_group members_of
member_covers ctx token user = covered
member_covers ctx token group = is_user_group ctx (members_of token ctx.groups)
member_covers ctx token tag = uncovered
member_covers ctx token _ = unknown

-- `autogroup:tagged` for a kind of token
unfoldable pub tagged_covers : TokenKind → Coverage
tagged_covers tag = covered
tagged_covers user = uncovered
tagged_covers group = uncovered
tagged_covers _ = unknown

-- A name without the `@` at its end.
unfoldable pub bare : Text → Text
bare name = if ends_with name b'@' then drop_last name else name

module _ (lower : Text → Text) (ctx : CoverageContext) where
  -- A `group:` target, for the members it has and a kind of token
  unfoldable pub group_covers : Text → TokenKind → Option (List Text) → Coverage
  unfolding bare
  group_covers token kind none = unknown
  group_covers token user (some members) =
      let needle = lower token in
      if any (λ m. eq_text (lower m) needle || eq_text (bare (lower m)) (bare needle)) members
      then covered
      else uncovered
  group_covers token group (some members) = uncovered
  group_covers token _ (some members) = unknown

  abbrev pub tag_covers : TokenKind → Coverage
  tag_covers tag = uncovered
  tag_covers _ = unknown

  -- `targetCovers`
  unfoldable pub target_covers : Text → Text → Coverage
  unfolding member_covers tagged_covers group_covers members_of
  target_covers token target =
      let kind = classify_token token ctx.host_aliases in
      if eq_text target token || eq_text target (lit "*")
      then covered
      else if eq_text target (lit "autogroup:member")
      then member_covers ctx token kind
      else if eq_text target (lit "autogroup:tagged")
      then tagged_covers kind
      else if starts_with target (lit "group:")
      then group_covers token kind (members_of target ctx.groups)
      else if starts_with target (lit "tag:")
      then tag_covers kind
      else unknown

  -- One round of the loop of `coveredByAny`: the verdict of a target, then what the others say.
  unfoldable pub best : Coverage → Coverage → Coverage
  best covered others = covered
  best unknown covered = covered
  best unknown _ = unknown
  best uncovered others = others

  -- `coveredByAny`
  unfoldable pub covered_by_any : Text → List Text → Coverage
  unfolding target_covers best
  covered_by_any token [] = uncovered
  covered_by_any token (target ∷ targets) =
      best (target_covers token target) (covered_by_any token targets)

  abbrev pub is_uncovered : Coverage → Bool
  is_uncovered uncovered = true
  is_uncovered _ = false

  -- `provablyUncovered`
  unfoldable pub provably_uncovered : List Text → List Text → Bool
  unfolding covered_by_any
  provably_uncovered tokens targets =
      not (is_empty tokens) && all (λ token. is_uncovered (covered_by_any token targets)) tokens

-- `attrTargets`
unfoldable pub attr_targets : List NodeAttrEntry → Text → List Text
attr_targets [] attr = []
attr_targets (entry ∷ entries) attr =
    let rest = attr_targets entries attr in
    if has attr entry.attr then entry.target ++ rest else rest
