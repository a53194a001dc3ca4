-- ===== src/Metadata/Actions.antt =====
-- src/app/(app)/machines/[id]/metadata-actions.ts
use headtower.Prelude.{
  ℕ, Bool, not, leb, Option, none, some, List, [], ◌∷◌, map, Text, lit, any, keep, length, unique,
  is_empty, trim, if◌then◌else◌,
}
use headtower.Json.{null, bool, num, str, obj, end, field}
use headtower.Rbac.{machines_write}
use headtower.Authz.{Session, AuditEntry, Gate, unauthenticated, denied, granted, authorize, audit}
use headtower.Metadata.{
  Environment, environment_value, environment_text, note_max_length, label_max_count,
  label_max_length, normalize_environment, normalize_note, normalize_labels, Row, as_array,
  upsert_node_metadata, delete_node_metadata,
}

-- `NodeMetadataFormInput`; `none` stands for a value of another type.
pub record Form : Type 0 where
  pub note : Option Text
  pub environment : Option Text
  pub labels : Option (List (Option Text))

-- `MetadataActionResult`, with the error of a missing session.
pub data Result : Type 0 where
  unsigned success : Result
  error : Text → Result

pub record World : Type 0 where
  pub rows : List Row
  pub trail : List AuditEntry

-- The elements that are strings
unfoldable pub text_values : List (Option Text) → List Text
text_values [] = []
text_values (none ∷ values) = text_values values
text_values (some s ∷ values) = s ∷ text_values values

-- The trimmed note of a form, and its labels
abbrev pub form_note : Form → Text
form_note form = elim form.note [ none ↦ [] | some note ↦ trim note ]

abbrev pub raw_labels : Form → List (Option Text)
raw_labels form = as_array form.labels

-- `distinctLabels`
unfoldable pub distinct_labels : List (Option Text) → List Text
unfolding text_values
distinct_labels raws = unique (keep (λ l. not (is_empty l)) (map trim (text_values raws)))

abbrev pub long_label : Text → Bool
long_label l = not (leb (length (trim l)) label_max_length)

unfoldable pub set_entry :
    (ℕ → ℕ) → Text → Text → Option Environment → List Text → Text → AuditEntry
set_entry double id note environment labels actor = record {
  actor = actor;
  action = lit "node.metadata.set";
  target_type = some (lit "node");
  target_id = some id;
  target_name = none;
  detail = some (
      obj (
        field (lit "hasNote") (bool (not (is_empty note))) (
          field (lit "environment")
            (elim environment [ none ↦ null | some e ↦ str (environment_value e) ])
            (field (lit "labelCount") (num (double (length labels))) end))));
}

unfoldable pub clear_entry : Text → Text → AuditEntry
clear_entry id actor = record {
  actor = actor;
  action = lit "node.metadata.clear";
  target_type = some (lit "node");
  target_id = some id;
  target_name = none;
  detail = none;
}

-- The bits of a number, whether the table takes a write, and whether the audit trail does.
module _ (double : ℕ → ℕ) (taken recorded : Bool) where
  -- `saveNodeMetadata` behind its checks
  unfoldable pub store_metadata : ℕ → Session → Text → Form → World → Result × World
  store_metadata now who id form world =
      let note = form_note form in
      let labels = normalize_labels (raw_labels form) in
      let environment = normalize_environment form.environment in
      let written =
        upsert_node_metadata now id (normalize_note (some note)) (environment_text environment)
          (map (λ l. some l) labels) world.rows in
      if not taken then (error (lit "Couldn't save metadata."), world) else (
        success,
        record {
          rows = written.1;
          trail = audit recorded (set_entry double id note environment labels) who world.trail;
        },
      )

  unfoldable pub check_form : ℕ → Session → Text → Form → World → Result × World
  check_form now who id form world =
      if not (leb (length (form_note form)) note_max_length)
      then (error (lit "Note must be 2000 characters or fewer."), world)
      else if any long_label (text_values (raw_labels form))
      then (error (lit "Each label must be 32 characters or fewer."), world)
      else if not (leb (length (distinct_labels (raw_labels form))) label_max_count)
      then (error (lit "Keep 16 labels or fewer."), world)
      else store_metadata now who id form world

  abbrev pub gated : (Session → Result × World) → World → Gate → Result × World
  gated rest world unauthenticated = (unsigned, world)
  gated rest world (denied reason) = (error reason, world)
  gated rest world (granted who) = rest who

  -- `saveNodeMetadata`
  unfoldable pub save_node_metadata : ℕ → Option Session → Text → Form → World → Result × World
  save_node_metadata now session id form world =
      gated (λ who. check_form now who id form world) world (authorize session machines_write)

  -- `clearNodeMetadata`
  unfoldable pub clear_node_metadata : Option Session → Text → World → Result × World
  clear_node_metadata session id world =
      gated
        (λ who. if not taken then (error (lit "Couldn't clear metadata."), world) else (
          success,
          record {
            rows = delete_node_metadata id world.rows;
            trail = audit recorded (clear_entry id) who world.trail;
          },
        ))
        world (authorize session machines_write)
