-- ===== src/Policy/Hujson.antt =====
-- src/lib/policy/hujson.ts: comments and trailing commas taken out of a HuJSON text.
pub mod Pieces
use headtower.Prelude.{
  ℕ, ◌+◌, Bool, true, false, not, ◌&&◌, ◌||◌, List, [], ◌∷◌, ◌++◌, map, Text, lit, starts_with,
  trim, drop, is_space, is_empty, ◌==◌, leb, if◌then◌else◌, ◌⊎◌, inl, inr,
}
use headtower.Json.{Json}

-- `source[i + 1] === c`, at the rest of the source
unfoldable pub next_is : ℕ → Text → Bool
next_is c [] = false
next_is c (d ∷ rest) = d == c

-- Where the loop of `stripHujson` is: in the document, in a string, behind a backslash in one, in a
-- line comment, at the star that opens a block comment, in a block comment, at the slash that closes it.
pub data Mode : Type 0 where
  document in_string escaped line opening block closing : Mode

-- One character of the loop: what it appends, and where it goes on.
unfoldable pub turn : Mode → ℕ → Text → Text × Mode
unfolding next_is
turn document c rest =
    if c == b'"'
    then (c ∷ [], in_string)
    else if c == b'/' && next_is b'/' rest
    then ([], line)
    else if c == b'/' && next_is b'*' rest
    then ([], opening)
    else (c ∷ [], document)
turn in_string c rest =
    if c == b'\\'
    then (c ∷ [], escaped)
    else if c == b'"'
    then (c ∷ [], document)
    else (c ∷ [], in_string)
turn escaped c rest = (c ∷ [], in_string)
turn line c rest = if c == b'\n' then (c ∷ [], document) else ([], line)
turn opening c rest = ([], block)
turn block c rest = if c == b'*' && next_is b'/' rest then ([], closing) else ([], block)
turn closing c rest = ([], document)

-- What the end of the source appends: a line comment leaves its newline there too.
unfoldable pub at_end : Mode → Text
at_end line = b'\n' ∷ []
at_end _ = []

-- The loop of `stripHujson`.
unfoldable pub scan : Mode → Text → Text
unfolding turn at_end
scan mode [] = at_end mode
scan mode (c ∷ rest) = let t = turn mode c rest in t.0 ++ scan t.1 rest

-- Whether `\s*[}\]]` matches at the start of a text.
unfoldable pub closes : Text → Bool
closes [] = false
closes (c ∷ rest) = let later = closes rest in if is_space c then later else c == b'}' || c == b']'

-- `.replace(/,(\s*[}\]])/g, "$1")`: the spaces and the bracket of a match hold no comma.
unfoldable pub drop_commas : Text → Text
unfolding closes
drop_commas [] = []
drop_commas (c ∷ rest) =
    let others = drop_commas rest in if c == b',' && closes rest then others else c ∷ others

-- `stripHujson`
unfoldable pub strip_hujson : Text → Text
unfolding scan drop_commas
strip_hujson source = drop_commas (scan document source)

-- `cleanParseMessage` of an error with a message; the prefix is matched in either case, ASCII alone.
unfoldable pub lower_ascii : ℕ → ℕ
lower_ascii c = if leb b'A' c && leb c b'Z' then c + 32 else c

unfoldable pub clean_parse_message : Text → Text
unfolding lower_ascii
clean_parse_message message =
    if starts_with (map lower_ascii message) (lit "json.parse:")
    then trim (drop 11 message)
    else trim message

-- `Validity`
pub data Validity : Type 0 where
  empty : Validity
  valid : Validity
  invalid : Text → Validity

-- `JSON.parse`, as the value of a text or the message of the error that it throws.
module _ (parse : Text → Text ⊎ Json) where
  -- `parseHujson`
  unfoldable pub parse_hujson : Text → Text ⊎ Json
  unfolding strip_hujson
  parse_hujson source = parse (strip_hujson source)

  unfoldable pub verdict : Text ⊎ Json → Validity
  unfolding clean_parse_message
  verdict (inl message) = invalid (clean_parse_message message)
  verdict (inr value) = valid

  -- `validateHujson`
  unfoldable pub validate_hujson : Text → Validity
  unfolding parse_hujson verdict
  validate_hujson source = if is_empty (trim source) then empty else verdict (parse_hujson source)
