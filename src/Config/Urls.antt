-- ===== src/Config/Urls.antt =====
-- `normalizeUrl`, `tryNormalizeUrl` and `hostOf` of src/lib/config/index.ts.
use headtower.Prelude.{
  Bool, not, ◌&&◌, ◌||◌, ◌==◌, Option, none, some, [], ◌∷◌, ◌++◌, Text, lit, eq_text, is_empty,
  if◌then◌else◌,
}
use headtower.Config.{Host, Url}

-- What `normalizeUrl` returns, or the message of the error that it throws.
pub data Checked : Type 0 where
  url : Text → Checked
  wrong : Text → Checked

-- `s.replace(/\/+$/, "")`
unfoldable pub strip_slashes : Text → Text
strip_slashes [] = []
strip_slashes (c ∷ s) =
    let rest = strip_slashes s in if c == b'/' && is_empty rest then [] else c ∷ rest

abbrev pub is_web : Url → Bool
is_web u = eq_text u.protocol (lit "http:") || eq_text u.protocol (lit "https:")

unfoldable pub check_url : Text → Url → Checked
unfolding strip_slashes
check_url label u =
    if not (is_web u)
    then wrong (label ++ lit " must be an http(s) URL, got \"" ++ u.protocol ++ lit "\".")
    else url (strip_slashes u.href)

module _ (host : Host) where
  -- `normalizeUrl`
  unfoldable pub normalize_url : Text → Text → Checked
  unfolding check_url
  normalize_url label raw = elim (host.parse_url raw) [
    | none ↦ wrong (label ++ lit " is not a valid URL: " ++ host.quote raw ++ lit ".")
    | some u ↦ check_url label u
  ]

  -- `tryNormalizeUrl`
  unfoldable pub try_normalize_url : Text → Option Text
  unfolding normalize_url
  try_normalize_url raw = elim (normalize_url (lit "url") raw) [
    | url u ↦ some u
    | wrong message ↦ none
  ]

  -- `hostOf`
  unfoldable pub host_of : Text → Text
  host_of raw = elim (host.parse_url raw) [ none ↦ raw | some u ↦ u.host ]
