-- ===== src/Machines/Filter.antt =====
-- src/lib/machines.ts (the text search) and src/components/machines/use-machines-filter.ts.
use headtower.Prelude.{
  ℕ, Bool, true, false, not, ◌&&◌, ◌||◌, Option, none, some, List, [], ◌∷◌, ◌++◌, Text, lit,
  eq_text, any, all, keep, drop, find, length, is_empty, scalars, starts_with, join_on, contains,
  terms, if◌then◌else◌,
}
use headtower.Language.{Language}
use headtower.Metadata.{
  Environment, environments, environment_value, environment_label, environment_text, Metadata,
  normalize_environment,
}
use headtower.Machines.View.{NodeView}
use headtower.Machines.Status.{StatusFilter, online, offline, issues, matches_status}

-- The texts of the status segments, as they stand in the URL
unfoldable pub status_text : StatusFilter → Text
status_text headtower.Machines.Status.all = lit "all"
status_text online = lit "online"
status_text offline = lit "offline"
status_text issues = lit "issues"

abbrev pub status_values : List StatusFilter
status_values = headtower.Machines.Status.all ∷ online ∷ offline ∷ issues ∷ []

abbrev pub every_status : StatusFilter
every_status = headtower.Machines.Status.all

-- `narrowStatus`: the segment whose text the value is.
unfoldable pub narrow_status : Option Text → StatusFilter
unfolding status_text
narrow_status none = every_status
narrow_status (some value) = elim (find (λ s. eq_text (status_text s) value) status_values) [
  | none ↦ every_status
  | some status ↦ status
]

-- `narrowEnv`
unfoldable pub narrow_env : Option Text → Option Environment
narrow_env none = none
narrow_env (some value) = if is_empty value then none else normalize_environment (some value)

-- `environmentMeta(a) === b` and the like on environments
unfoldable pub same_environment : Environment → Environment → Bool
unfolding environment_value
same_environment a b = eq_text (environment_value a) (environment_value b)

-- `MachinesFilterState`
pub record FilterState : Type 0 where
  pub query : Text
  pub status : StatusFilter
  pub user : Option Text
  pub tag : Option Text
  pub env : Option Environment

-- `t.replace(/^tag:/, "")`
unfoldable pub bare_tag : Text → Text
bare_tag tag = if starts_with tag (lit "tag:") then drop 4 tag else tag

-- What the search looks into: the texts of a machine, then those of its metadata.
abbrev pub meta_texts : Option Metadata → List Text
meta_texts none = [] ∷ [] ∷ []
meta_texts (some meta) = elim meta.environment [
  | none ↦ [] ∷ [] ∷ meta.labels
  | some e ↦ environment_value e ∷ environment_label e ∷ meta.labels
]

unfoldable pub haystack : NodeView → Option Metadata → Text
haystack node meta = join_on b' ' (
    node.name ∷ node.hostname ∷ node.user.name ∷ node.user.display_name ∷ node.user.email
      ∷ node.register_method ∷ node.addresses
    ++ node.tags
    ++ meta_texts meta)

-- `user`, `tag` or `env` of the state, where null and the empty text stand for none
abbrev pub wanted : Option Text → Option Text
wanted none = none
wanted (some text) = if is_empty text then none else some text

module _ (language : Language) where
  -- `matchesQuery`
  unfoldable pub matches_query : NodeView → Text → Option Metadata → Bool
  matches_query node q meta =
      if is_empty q
      then true
      else all (λ term. contains (language.lower (haystack node meta)) term)
          (terms (language.lower q))

  -- `matchesUser`
  unfoldable pub matches_user : NodeView → Option Text → Bool
  matches_user node user = elim (wanted user) [
    | none ↦ true
    | some name ↦
        eq_text (language.lower node.user.name) (language.lower name)
        || eq_text (language.lower node.user.display_name) (language.lower name)
        || eq_text (language.lower node.user.email) (language.lower name)
  ]

  -- `matchesTag`
  unfoldable pub matches_tag : NodeView → Option Text → Bool
  matches_tag node tag = elim (wanted tag) [
    | none ↦ true
    | some t ↦
        any (λ own. eq_text (language.lower (bare_tag own)) (language.lower (bare_tag t))) node.tags
  ]

  -- `matchesEnv`
  unfoldable pub matches_env : Option Metadata → Option Environment → Bool
  matches_env meta none = true
  matches_env none (some env) = false
  matches_env (some meta) (some env) = elim meta.environment [
    | none ↦ false
    | some own ↦ same_environment own env
  ]

  -- `filtered`; the metadata of a machine are looked up by its id.
  abbrev pub passes : (Text → Option Metadata) → FilterState → NodeView → Bool
  passes metadata state node =
      matches_status node state.status
      && matches_query node state.query (metadata node.id)
      && matches_user node state.user
      && matches_tag node state.tag
      && matches_env (metadata node.id) state.env

  unfoldable pub filtered : List NodeView → FilterState → (Text → Option Metadata) → List NodeView
  filtered nodes state metadata = keep (passes metadata state) nodes

-- `onlineCount`
unfoldable pub online_count : List NodeView → ℕ
online_count nodes = length (keep (λ n. n.online && not n.expired) nodes)

-- `environments`
unfoldable pub present_environments : List NodeView → (Text → Option Metadata) → List Environment
present_environments nodes metadata = keep (λ e. any (λ n. at e (metadata n.id)) nodes) environments
  where
    at : Environment → Option Metadata → Bool
    at e none = false
    at e (some meta) = elim meta.environment [ none ↦ false | some own ↦ same_environment own e ]

-- The list of a `URLSearchParams`, and its `get`
abbrev pub Params : Type 0
Params = List (Text × Text)

unfoldable pub get_param : Params → Text → Option Text
get_param [] key = none
get_param ((k, v) ∷ params) key = if eq_text k key then some v else get_param params key

-- `url`, the state that the parameters say
unfoldable pub read_url : Params → FilterState
unfolding narrow_status narrow_env
read_url params = record {
  query = elim (get_param params (lit "q")) [ none ↦ [] | some q ↦ q ];
  status = narrow_status (get_param params (lit "status"));
  user = get_param params (lit "user");
  tag = get_param params (lit "tag");
  env = narrow_env (get_param params (lit "env"));
}

-- `if (v) params.set(key, v)`, for a key that is not there yet; `set` converts the value to scalar
-- values.
abbrev pub put_some : Text → Option Text → Params
put_some key none = []
put_some key (some value) = if is_empty value then [] else (key, scalars value) ∷ []

abbrev pub status_param : StatusFilter → Option Text
status_param headtower.Machines.Status.all = none
status_param status = some (status_text status)

-- The parameters that `commit` writes
unfoldable pub commit_params : FilterState → Params
commit_params state =
    put_some (lit "q") (some state.query)
    ++ (put_some (lit "status") (status_param state.status)
        ++ (put_some (lit "user") state.user
            ++ (put_some (lit "tag") state.tag
                ++ (put_some (lit "env") (environment_text state.env) ++ []))))

-- The URL that `commit` hands to the router, by `params.toString()`
unfoldable pub commit_url : (Params → Text) → Text → FilterState → Text
commit_url serialize pathname state =
    let qs = serialize (commit_params state) in
    if is_empty qs then pathname else pathname ++ b'?' ∷ qs

-- The state that the hook reads on the page at a URL, by `useSearchParams`
unfoldable pub state_at : (Text → Params) → Text → FilterState
state_at search_of url = read_url (search_of url)
