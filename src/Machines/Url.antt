-- ===== src/Machines/Url.antt =====
-- src/components/machines/use-machines-filter.ts: the filter in the URL.
use headtower.Prelude.{
  All, All-append, ap, scalars, scalars-scalars, is_high, is_low, if◌then◌else◌, ◌≡◌, refl, sym,
  ◌∙◌, false, Option, none, some, [], ◌∷◌, ◌++◌, Text, lit, eq_text, eq_text_self, is_empty,
  Bool-cases, inl, inr,
}
use headtower.Metadata.{Environment, prod, staging, dev, environment_text, normalize_environment}
use headtower.Machines.Status.{StatusFilter, online, offline, issues}
use headtower.Machines.Filter.{
  narrow_status, narrow_env, FilterState, Params, get_param, read_url, put_some, status_param,
  commit_params, commit_url, state_at,
}

-- What is sent of a value, null and the empty text standing for none
abbrev pub sent : Option Text → Option Text
sent none = none
sent (some value) = if is_empty value then none else some (scalars value)

-- What the router and the platform do with the parameters: on the page at the URL with their
-- query, `useSearchParams` gives them back, where every name and value is made of scalar values.
abbrev pub Scalars : Params → Type 0
Scalars params = All (λ (p : Text × Text). (scalars p.0 ≡ p.0) × (scalars p.1 ≡ p.1)) params

abbrev pub Returns : (Params → Text) → (Text → Params) → Text → Type 0
Returns serialize search_of pathname =
    (params : Params)
    → Scalars params
    → search_of
        (if is_empty (serialize params) then pathname else pathname ++ b'?' ∷ serialize params)
      ≡ params

-- A parameter that has been put, and one under another key
put_own :
    (key : Text) (value : Option Text) (params : Params)
    → get_param params key ≡ none
    → get_param (put_some key value ++ params) key ≡ sent value
unfolding get_param
put_own key none params e = e
put_own key (some value) params e = elim (Bool-cases (is_empty value)) [
  | inl blank ↦ rw blank e
  | inr given ↦ rw (given, eq_text_self key) refl
]

put_some-Scalars :
    (key : Text) (value : Option Text) → scalars key ≡ key → Scalars (put_some key value)
put_some-Scalars key none e = tt
put_some-Scalars key (some value) e = elim (Bool-cases (is_empty value)) [
  | inl blank ↦ rw blank tt
  | inr given ↦ rw given ((e, scalars-scalars value), tt)
]

put_other :
    (k key : Text) (value : Option Text) (params : Params)
    → eq_text k key ≡ false
    → get_param (put_some k value ++ params) key ≡ get_param params key
unfolding get_param
put_other k key none params apart = refl
put_other k key (some value) params apart = elim (Bool-cases (is_empty value)) [
  | inl blank ↦ rw blank refl
  | inr given ↦ rw (given, apart) refl
]

-- What is put under the five keys, one after the other, is read under each.
module _ (q status user tag env : Option Text) where
  abbrev from_env : Params
  from_env = put_some (lit "env") env ++ []

  abbrev from_tag : Params
  from_tag = put_some (lit "tag") tag ++ from_env

  abbrev from_user : Params
  from_user = put_some (lit "user") user ++ from_tag

  abbrev from_status : Params
  from_status = put_some (lit "status") status ++ from_user

  abbrev all_five : Params
  all_five = put_some (lit "q") q ++ from_status

  get_q : get_param all_five (lit "q") ≡ sent q
  unfolding eq_text lit get_param
  get_q = put_own (lit "q") q from_status (
      put_other (lit "status") (lit "q") status from_user refl
      ∙ put_other (lit "user") (lit "q") user from_tag refl
      ∙ put_other (lit "tag") (lit "q") tag from_env refl
      ∙ put_other (lit "env") (lit "q") env [] refl)

  get_status : get_param all_five (lit "status") ≡ sent status
  unfolding eq_text lit get_param
  get_status =
      put_other (lit "q") (lit "status") q from_status refl
      ∙ put_own (lit "status") status from_user (
          put_other (lit "user") (lit "status") user from_tag refl
          ∙ put_other (lit "tag") (lit "status") tag from_env refl
          ∙ put_other (lit "env") (lit "status") env [] refl)

  get_user : get_param all_five (lit "user") ≡ sent user
  unfolding eq_text lit get_param
  get_user =
      put_other (lit "q") (lit "user") q from_status refl
      ∙ put_other (lit "status") (lit "user") status from_user refl
      ∙ put_own (lit "user") user from_tag (
          put_other (lit "tag") (lit "user") tag from_env refl
          ∙ put_other (lit "env") (lit "user") env [] refl)

  get_tag : get_param all_five (lit "tag") ≡ sent tag
  unfolding eq_text lit get_param
  get_tag =
      put_other (lit "q") (lit "tag") q from_status refl
      ∙ put_other (lit "status") (lit "tag") status from_user refl
      ∙ put_other (lit "user") (lit "tag") user from_tag refl
      ∙ put_own (lit "tag") tag from_env (put_other (lit "env") (lit "tag") env [] refl)

  get_env : get_param all_five (lit "env") ≡ sent env
  unfolding eq_text lit get_param
  get_env =
      put_other (lit "q") (lit "env") q from_status refl
      ∙ put_other (lit "status") (lit "env") status from_user refl
      ∙ put_other (lit "user") (lit "env") user from_tag refl
      ∙ put_other (lit "tag") (lit "env") tag from_env refl
      ∙ put_own (lit "env") env [] refl

narrow_status-param : (s : StatusFilter) → narrow_status (sent (status_param s)) ≡ s
unfolding narrow_status eq_text lit scalars is_high is_low
narrow_status-param headtower.Machines.Status.all = refl
narrow_status-param online = refl
narrow_status-param offline = refl
narrow_status-param issues = refl

narrow_env-text : (e : Option Environment) → narrow_env (sent (environment_text e)) ≡ e
unfolding narrow_env normalize_environment eq_text lit scalars is_high is_low
narrow_env-text none = refl
narrow_env-text (some prod) = refl
narrow_env-text (some staging) = refl
narrow_env-text (some dev) = refl

-- The state that five values say
abbrev of_five : Option Text → Option Text → Option Text → Option Text → Option Text → FilterState
of_five q status user tag env = record {
  query = elim q [ none ↦ [] | some text ↦ text ];
  status = narrow_status status;
  user = user;
  tag = tag;
  env = narrow_env env;
}

read_url-of_five :
    (params : Params) (q status user tag env : Option Text)
    → get_param params (lit "q") ≡ q
    → get_param params (lit "status") ≡ status
    → get_param params (lit "user") ≡ user
    → get_param params (lit "tag") ≡ tag
    → get_param params (lit "env") ≡ env
    → read_url params ≡ of_five q status user tag env
unfolding read_url
read_url-of_five params q status user tag env eq es eu et ee =
    rw (sym eq, sym es, sym eu, sym et, sym ee) refl

of_five-sent :
    (q : Text) (status : StatusFilter) (user tag : Option Text) (env : Option Environment)
    → of_five (sent (some q)) (sent (status_param status)) user tag (sent (environment_text env))
      ≡ record { query = scalars q; status = status; user = user; tag = tag; env = env }
unfolding scalars
of_five-sent [] status user tag env = rw (narrow_status-param status, narrow_env-text env) refl
of_five-sent (c ∷ q) status user tag env = rw (narrow_status-param status, narrow_env-text env) refl

read_url-sent :
    (state : FilterState)
    → read_url (commit_params state)
      ≡ record state { query = scalars state.query; user = sent state.user; tag = sent state.tag }
unfolding commit_params
read_url-sent state =
    let q = some state.query in
    let status = status_param state.status in
    let env = environment_text state.env in
    read_url-of_five (all_five q status state.user state.tag env) (sent q) (sent status)
      (sent state.user) (sent state.tag) (sent env) (get_q q status state.user state.tag env)
      (get_status q status state.user state.tag env) (get_user q status state.user state.tag env)
      (get_tag q status state.user state.tag env) (get_env q status state.user state.tag env)
    ∙ of_five-sent state.query state.status (sent state.user) (sent state.tag) state.env

Scalars-append : (ps qs : Params) → Scalars ps → Scalars qs → Scalars (ps ++ qs)
Scalars-append ps qs h k =
    All-append (λ (p : Text × Text). (scalars p.0 ≡ p.0) × (scalars p.1 ≡ p.1)) ps qs h k

commit_params-Scalars : (state : FilterState) → Scalars (commit_params state)
unfolding commit_params lit scalars is_high is_low
commit_params-Scalars state =
    Scalars-append (put_some (lit "q") (some state.query)) _
      (put_some-Scalars (lit "q") (some state.query) refl)
      (Scalars-append (put_some (lit "status") (status_param state.status)) _
        (put_some-Scalars (lit "status") (status_param state.status) refl)
        (Scalars-append (put_some (lit "user") state.user) _
          (put_some-Scalars (lit "user") state.user refl)
          (Scalars-append (put_some (lit "tag") state.tag) _
            (put_some-Scalars (lit "tag") state.tag refl)
            (Scalars-append (put_some (lit "env") (environment_text state.env)) []
              (put_some-Scalars (lit "env") (environment_text state.env) refl) tt))))

-- On the page at the URL that the filter of the machines hands to the router, the hook reads the
-- filter as it was, but that a surrogate of the query, the user or the tag that stands alone has
-- become U+FFFD, and that a user or a tag that is an empty text is dropped. This is where the
-- router and the platform give the parameters of a query back whose names and values are made of
-- scalar values.
pub state_at-commit_url :
    (serialize : Params → Text) (search_of : Text → Params) (pathname : Text)
    → Returns serialize search_of pathname
    → (state : FilterState)
    → state_at search_of (commit_url serialize pathname state)
      ≡ record state { query = scalars state.query; user = sent state.user; tag = sent state.tag }
unfolding state_at commit_url
state_at-commit_url serialize search_of pathname returns state =
    ap read_url (returns (commit_params state) (commit_params-Scalars state)) ∙ read_url-sent state
