-- ===== src/Metadata/Stored.antt =====
-- src/app/(app)/machines/[id]/metadata-actions.ts: what the row of a form within the limits reads
-- back as.
use headtower.Prelude.{
  ℕ, ◌≤◌, subst, ◌≡◌, refl, sym, ap, ◌∙◌, Bool, true, false, Option, none, some, [], map, Text, lit,
  eq_text, any, find, length, trim, trim-trim,
}
use headtower.Authz.{Session}
use headtower.Metadata.{
  Environment, prod, staging, dev, environment_text, note_max_length, label_max_count, Metadata,
  normalize_environment, normalize_note, normalize_labels, Row, of_node, row_to_value,
  get_node_metadata, put_row, upsert_node_metadata,
}
use headtower.Metadata.Actions.{
  Form, World, text_values, form_note, raw_labels, distinct_labels, long_label, store_metadata,
}
use headtower.Metadata.Rows.{find-put_row, find-put_other, get-found}
use headtower.Metadata.Labels.{
  tidy_note, normalize_note-again, normalize_labels-distinct, normalize_labels-again,
}

trim_nil : trim [] ≡ []
unfolding trim
trim_nil = refl

environment_again : (e : Option Environment) → normalize_environment (environment_text e) ≡ e
unfolding normalize_environment eq_text lit
environment_again none = refl
environment_again (some prod) = refl
environment_again (some staging) = refl
environment_again (some dev) = refl

-- What a form says: its note and its labels within the limits, the texts as they are trimmed.
pub record Fits (form : Form) : Type 0 where
  pub note : length (form_note form) ≤ note_max_length
  pub short : any long_label (text_values (raw_labels form)) ≡ false
  pub few : length (distinct_labels (raw_labels form)) ≤ label_max_count

-- The metadata that a form means.
abbrev pub meant : ℕ → Form → Metadata
meant now form = record {
  note = tidy_note (form_note form);
  environment = normalize_environment form.environment;
  labels = distinct_labels (raw_labels form);
  updated_at = some now;
}

form_note-trim : (form : Form) → form_note form ≡ trim (form_note form)
form_note-trim form = go form.note
  where
    go :
        (note : Option Text)
        → elim note as (λ n. Text) [ none ↦ [] | some s ↦ trim s ]
          ≡ trim (elim note as (λ n. Text) [ none ↦ [] | some s ↦ trim s ])
    go none = sym trim_nil
    go (some s) = sym (trim-trim s)

-- The row that is stored
abbrev stored : ℕ → Text → Form → Row
stored now id form = record {
  node_id = id;
  note = normalize_note (normalize_note (some (form_note form)));
  environment =
      environment_text
        (normalize_environment (environment_text (normalize_environment form.environment)));
  labels = some (
      map (λ l. some l)
        (normalize_labels (map (λ l. some l) (normalize_labels (raw_labels form)))));
  updated_at = now;
}

note_again :
    (form : Form)
    → length (form_note form) ≤ note_max_length
    → normalize_note (normalize_note (normalize_note (some (form_note form))))
      ≡ tidy_note (form_note form)
note_again form fits =
    let e = form_note-trim form in
    ap (λ n. normalize_note (normalize_note (normalize_note (some n)))) e
    ∙ normalize_note-again (form_note form) (subst (λ n. length n ≤ note_max_length) e fits)

labels_again :
    (form : Form)
    → Fits form
    → normalize_labels (
        map
          (λ l. some l)
          (normalize_labels (map (λ l. some l) (normalize_labels (raw_labels form)))))
      ≡ distinct_labels (raw_labels form)
labels_again form fits =
    let once = normalize_labels-distinct (raw_labels form) fits.short fits.few in
    let again = normalize_labels-again (raw_labels form) fits.short fits.few in
    rw (once, again) again

row_to_value-stored :
    (now : ℕ) (id : Text) (form : Form)
    → Fits form
    → row_to_value (stored now id form) ≡ meant now form
unfolding row_to_value
row_to_value-stored now id form fits =
    rw
      (
        note_again form fits.note,
        environment_again (normalize_environment form.environment),
        environment_again (normalize_environment form.environment),
        labels_again form fits,
      )
      refl

module _ (double : ℕ → ℕ) (recorded : Bool) (now : ℕ) (who : Session) (id : Text) (form : Form)
    (world : World) where
  store_metadata-rows :
      (store_metadata double true recorded now who id form world).1.rows
      ≡ put_row (stored now id form) world.rows
  unfolding store_metadata upsert_node_metadata
  store_metadata-rows = refl

  pub store_metadata-reads :
      Fits form
      → get_node_metadata
          (some (store_metadata double true recorded now who id form world).1.rows)
          id
        ≡ meant now form
  store_metadata-reads fits = rw store_metadata-rows (
      get-found (put_row (stored now id form) world.rows) id (some (stored now id form))
        (find-put_row (stored now id form) world.rows)
      ∙ row_to_value-stored now id form fits)

  pub store_metadata-keeps :
      (other : Text)
      → eq_text id other ≡ false
      → get_node_metadata
          (some (store_metadata double true recorded now who id form world).1.rows)
          other
        ≡ get_node_metadata (some world.rows) other
  store_metadata-keeps other apart =
      let found = find (of_node other) world.rows in
      rw store_metadata-rows (
        get-found (put_row (stored now id form) world.rows) other found
          (find-put_other (stored now id form) other apart world.rows)
        ∙ sym (get-found world.rows other found refl))
