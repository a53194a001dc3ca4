-- ===== src/Revisions.antt =====
-- src/lib/db/policy-revisions.ts and src/lib/db/policy-revision-types.ts: the stored policies.
pub mod Actions
pub mod Store
pub mod Unique
pub mod Outcomes
pub mod Pushes
pub mod Saved
pub mod Tests
use headtower.Prelude.{
  ℕ, suc, Bool, true, false, not, ◌&&◌, ◌==◌, Option, none, some, List, [], ◌∷◌, ◌++◌, map, Text,
  lit, eq_text, find, keep, take, is_empty, trim, if◌then◌else◌,
}

-- A row of `policy_revision`; times are milliseconds.
pub record Revision : Type 0 where
  pub id : ℕ
  pub created_at : ℕ
  pub actor : Text
  pub document : Text
  pub digest : Text
  pub note : Option Text
  pub last_deployed_at : Option ℕ

-- The table with the id that the next row gets: ids are never used again.
pub record Table : Type 0 where
  pub rows : List Revision
  pub next_id : ℕ

abbrev pub note_max_length : ℕ
note_max_length = 120

-- `normalizeNote`
unfoldable pub normalize_note : Option Text → Option Text
normalize_note none = none
normalize_note (some raw) =
    if is_empty (trim raw) then none else some (take note_max_length (trim raw))

-- `PolicyRevisionState`
pub data RevisionState : Type 0 where
  live deployed draft : RevisionState

abbrev ever : Option ℕ → RevisionState
ever none = draft
ever (some at) = deployed

-- `revisionState`
unfoldable pub revision_state : Revision → Option Text → RevisionState
revision_state revision none = ever revision.last_deployed_at
revision_state revision (some digest) =
    if eq_text revision.digest digest then live else ever revision.last_deployed_at

abbrev pub has_id : ℕ → Revision → Bool
has_id id row = row.id == id

abbrev pub has_digest : Text → Revision → Bool
has_digest digest row = eq_text digest row.digest

-- `getRevision`
unfoldable pub get_revision : ℕ → Table → Option Revision
get_revision id table = find (has_id id) table.rows

-- `findByDigest`
unfoldable pub find_by_digest : Text → Table → Option Revision
find_by_digest digest table = find (has_digest digest) table.rows

-- `db.update(policyRevision).set(…).where(eq(policyRevision.id, id))`
unfoldable pub update_row : ℕ → (Revision → Revision) → Table → Table
update_row id change table = record table {
  rows = map (λ row. if has_id id row then change row else row) table.rows;
}

-- `markDeployed`
unfoldable pub mark_deployed : ℕ → ℕ → Table → Table
unfolding update_row
mark_deployed id at table = update_row id (λ row. record row { last_deployed_at = some at }) table

-- `updateNote`
unfoldable pub update_note : ℕ → Option Text → Table → Bool × Table
unfolding get_revision update_row normalize_note
update_note id note table = elim (get_revision id table) [
  | none ↦ (false, table)
  | some _ ↦ (true, update_row id (λ row. record row { note = normalize_note note }) table)
]

-- `deleteRevision`
unfoldable pub delete_revision : ℕ → Table → Bool × Table
unfolding get_revision
delete_revision id table = elim (get_revision id table) [
  | none ↦ (false, table)
  | some _ ↦ (true, record table { rows = keep (λ row. not (has_id id row)) table.rows })
]

-- What `rememberRevision` takes.
pub record Remember : Type 0 where
  pub document : Text
  pub actor : Text
  pub note : Option Text
  pub deployed_at : Option ℕ

-- `RememberResult`
pub record Remembered : Type 0 where
  pub row : Revision
  pub created : Bool

abbrev pub or_same : Option Revision → Revision → Revision
or_same none row = row
or_same (some found) row = found

-- The branch of a document that is stored already.
unfoldable pub remember_known : Option ℕ → Revision → Table → Remembered × Table
unfolding mark_deployed get_revision
remember_known none existing table =
    (record { row = or_same (get_revision existing.id table) existing; created = false }, table)
remember_known (some at) existing table =
    let marked = mark_deployed existing.id at table in
    (record { row = or_same (get_revision existing.id marked) existing; created = false }, marked)

-- What the page remembers of the running document.
abbrev pub as_found : Text → Remember
as_found document = record {
  document = document;
  actor = lit "headscale";
  note = some (lit "as found on the control plane");
  deployed_at = none;
}

-- `digestOf` belongs to Node.
module _ (digest_of : Text → Text) where
  unfoldable pub new_row : ℕ → Remember → ℕ → Revision
  unfolding normalize_note
  new_row now input id = record {
    id = id;
    created_at = now;
    actor = input.actor;
    document = input.document;
    digest = digest_of input.document;
    note = normalize_note input.note;
    last_deployed_at = input.deployed_at;
  }

  -- The branch of a new one, which reads the row back; `none` is the error where it is gone.
  unfoldable pub remember_new : ℕ → Remember → Table → Option Remembered × Table
  unfolding new_row find_by_digest
  remember_new now input table =
      let filled : Table = record {
        rows = table.rows ++ new_row now input table.next_id ∷ [];
        next_id = suc table.next_id;
      } in
      elim (find_by_digest (digest_of input.document) filled) [
        | none ↦ (none, filled)
        | some row ↦ (some (record { row = row; created = true }), filled)
      ]

  -- `rememberRevision`
  unfoldable pub remember_revision : ℕ → Remember → Table → Option Remembered × Table
  unfolding remember_known remember_new find_by_digest
  remember_revision now input table = elim (find_by_digest (digest_of input.document) table) [
    | none ↦ remember_new now input table
    | some existing ↦
        let (result, after) = remember_known input.deployed_at existing table in
        (some result, after)
  ]

  -- The capture of the running document that the page makes.
  unfoldable pub capture : ℕ → Text → Table → Table
  unfolding remember_revision
  capture now document table =
      if is_empty (trim document)
      then table
      else (remember_revision now (as_found document) table).1
