-- ===== src/Metadata.antt =====
-- src/lib/db/node-metadata-types.ts and src/lib/db/node-metadata.ts: the notes, environments and
-- labels of machines, and their table.
pub mod Actions
pub mod Labels
pub mod Rows
pub mod Stored
pub mod Readback
pub mod Tests
use headtower.Prelude.{
  ℕ, ◌+◌, Bool, true, false, not, ◌||◌, leb, Option, none, some, List, [], ◌∷◌, ◌++◌, map, Text,
  lit, eq_text, has, find, any, keep, take, length, is_empty, trim, if◌then◌else◌,
}

-- `NodeEnvironment`, the texts and the names of `ENVIRONMENTS`
pub data Environment : Type 0 where
  prod staging dev : Environment

unfoldable pub environment_value : Environment → Text
environment_value prod = lit "prod"
environment_value staging = lit "staging"
environment_value dev = lit "dev"

unfoldable pub environment_label : Environment → Text
environment_label prod = lit "Production"
environment_label staging = lit "Staging"
environment_label dev = lit "Development"

-- An environment or null, as it is stored and sent
abbrev pub environment_text : Option Environment → Option Text
environment_text none = none
environment_text (some e) = some (environment_value e)

abbrev pub environments : List Environment
environments = prod ∷ staging ∷ dev ∷ []

abbrev pub note_max_length : ℕ
note_max_length = 2000

abbrev pub label_max_count : ℕ
label_max_count = 16

abbrev pub label_max_length : ℕ
label_max_length = 32

-- `NodeMetadataValue`
pub record Metadata : Type 0 where
  pub note : Option Text
  pub environment : Option Environment
  pub labels : List Text
  pub updated_at : Option ℕ

-- `EMPTY_NODE_METADATA`
abbrev pub empty_metadata : Metadata
empty_metadata = record { note = none; environment = none; labels = []; updated_at = none }

-- `hasMetadata`
unfoldable pub has_metadata : Metadata → Bool
has_metadata value =
    let noted : Bool = elim value.note [ none ↦ false | some note ↦ not (is_empty (trim note)) ] in
    let placed : Bool = elim value.environment [ none ↦ false | some environment ↦ true ] in
    noted || placed || not (is_empty value.labels)

-- `normalizeEnvironment`. Here and below `none` stands for a value that is no string.
unfoldable pub normalize_environment : Option Text → Option Environment
unfolding environment_value
normalize_environment none = none
normalize_environment (some input) = find (λ e. eq_text (environment_value e) input) environments

-- `normalizeNote`
unfoldable pub normalize_note : Option Text → Option Text
normalize_note none = none
normalize_note (some input) =
    if is_empty (trim input) then none else some (take note_max_length (trim input))

-- The loop of `normalizeLabels`, whose set and list have the same members.
unfoldable pub labels_from : List Text → List (Option Text) → List Text
labels_from out [] = out
labels_from out (none ∷ raws) = labels_from out raws
labels_from out (some raw ∷ raws) =
    let label = take label_max_length (trim raw) in
    let pushed = out ++ label ∷ [] in
    let skip = labels_from out raws in
    let more = labels_from pushed raws in
    if is_empty label || has label out
    then skip
    else if leb label_max_count (length pushed)
    then pushed
    else more

-- `normalizeLabels`
unfoldable pub normalize_labels : List (Option Text) → List Text
unfolding labels_from
normalize_labels input = labels_from [] input

-- A row of `node_metadata`; the labels are whatever the JSON of the column holds, and `none` stands
-- for what is no array.
pub record Row : Type 0 where
  pub node_id : Text
  pub note : Option Text
  pub environment : Option Text
  pub labels : Option (List (Option Text))
  pub updated_at : ℕ

abbrev pub of_node : Text → Row → Bool
of_node id row = eq_text row.node_id id

-- `Array.isArray(v) ? v : []`
abbrev pub as_array : Option (List (Option Text)) → List (Option Text)
as_array none = []
as_array (some values) = values

-- `rowToValue`
unfoldable pub row_to_value : Row → Metadata
row_to_value row = record {
  note = normalize_note row.note;
  environment = normalize_environment row.environment;
  labels = normalize_labels (as_array row.labels);
  updated_at = some row.updated_at;
}

-- `getNodeMetadata`; a store that cannot be read is `none`.
unfoldable pub get_node_metadata : Option (List Row) → Text → Metadata
get_node_metadata none id = empty_metadata
get_node_metadata (some rows) id = elim (find (of_node id) rows) [
  | none ↦ empty_metadata
  | some row ↦ row_to_value row
]

-- `getNodeMetadataMap`: the entries in the order of the rows, with the ids that are asked for.
unfoldable pub get_node_metadata_map :
    Option (List Row) → Option (List Text) → List (Text × Metadata)
get_node_metadata_map none ids = []
get_node_metadata_map (some rows) none = map (λ row. (row.node_id, row_to_value row)) rows
get_node_metadata_map (some rows) (some ids) =
    map (λ row. (row.node_id, row_to_value row)) (keep (λ row. has row.node_id ids) rows)

-- `insert … onConflictDoUpdate` on the primary key
unfoldable pub put_row : Row → List Row → List Row
put_row row rows =
    if any (of_node row.node_id) rows
    then map (λ r. if of_node row.node_id r then row else r) rows
    else rows ++ row ∷ []

-- `upsertNodeMetadata`: the value it answers, and the table.
unfoldable pub upsert_node_metadata :
    ℕ → Text → Option Text → Option Text → List (Option Text) → List Row → Metadata × List Row
upsert_node_metadata now id note environment labels rows =
    let value : Metadata = record {
      note = normalize_note note;
      environment = normalize_environment environment;
      labels = normalize_labels labels;
      updated_at = some now;
    } in
    let row : Row = record {
      node_id = id;
      note = value.note;
      environment = environment_text value.environment;
      labels = some (map (λ l. some l) value.labels);
      updated_at = now;
    } in
    (value, put_row row rows)

-- `deleteNodeMetadata`
unfoldable pub delete_node_metadata : Text → List Row → List Row
delete_node_metadata id rows = keep (λ row. not (of_node id row)) rows

-- `deleteNodeMetadataMany`
unfoldable pub delete_node_metadata_many : List Text → List Row → List Row
delete_node_metadata_many ids rows =
    if is_empty ids then rows else keep (λ row. not (has row.node_id ids)) rows
