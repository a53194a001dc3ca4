-- ===== src/Revisions/Store.antt =====
-- src/lib/db/policy-revisions.ts: every operation keeps the table a set of documents.
use headtower.Prelude.{
  ℕ, suc, ◌≡◌, refl, inl, inr, arith, true, false, Option, none, some, List, [], ◌∷◌, ◌++◌, Text,
  eq_text, eq_text_self, has, find, is_empty, trim, All-append, All-keep, Bool-cases, Option-cases,
}
use headtower.Revisions.{
  Revision, Table, Remember, has_digest, mark_deployed, update_note, delete_revision, get_revision,
  find_by_digest, remember_known, remember_new, remember_revision, new_row, capture, as_found,
}
use headtower.Revisions.Unique.{
  IsSound, IsDigested, digests, Rising-keep, Rising-add, Distinct-keep, Distinct-add_last,
  update_row-IsSound,
}

module _ (digest_of : Text → Text) where
  pub mark_deployed-IsSound :
      (id at : ℕ) (table : Table)
      → IsSound digest_of table
      → IsSound digest_of (mark_deployed id at table)
  unfolding mark_deployed
  mark_deployed-IsSound id at table s =
      update_row-IsSound digest_of id _ (λ row. (refl, refl, refl)) table s

  pub update_note-IsSound :
      (id : ℕ) (note : Option Text) (table : Table)
      → IsSound digest_of table
      → IsSound digest_of (update_note id note table).1
  unfolding update_note
  update_note-IsSound id label table s = elim (Option-cases (get_revision id table)) [
    | inl e ↦ rw (e, update_note) s
    | inr (row, e) ↦
        rw (e, update_note) (update_row-IsSound digest_of id _ (λ row. (refl, refl, refl)) table s)
  ]

  pub delete_revision-IsSound :
      (id : ℕ) (table : Table)
      → IsSound digest_of table
      → IsSound digest_of (delete_revision id table).1
  unfolding delete_revision
  delete_revision-IsSound id table s = elim (Option-cases (get_revision id table)) [
    | inl e ↦ rw (e, delete_revision) s
    | inr (row, e) ↦
        rw (e, delete_revision)
          (record {
            rising = Rising-keep digest_of _ 0 table.rows table.next_id s.rising;
            distinct = Distinct-keep digest_of _ table.rows s.distinct;
            digested = All-keep (IsDigested digest_of) _ table.rows s.digested;
          })
  ]

  find-digest_none :
      (digest : Text) (rows : List Revision)
      → find (has_digest digest) rows ≡ none
      → has digest (digests rows) ≡ false
  unfolding has
  find-digest_none digest [] e = refl
  find-digest_none digest (row ∷ rows) e = ground (arith, e, find-digest_none digest rows)

  pub find-digest_last :
      (digest : Text) (rows : List Revision) (row : Revision)
      → find (has_digest digest) rows ≡ none
      → eq_text digest row.digest ≡ true
      → find (has_digest digest) (rows ++ row ∷ []) ≡ some row
  find-digest_last digest [] row e h = rw h refl
  find-digest_last digest (first ∷ rows) row e h =
      ground (arith, e, h, find-digest_last digest rows row)

  remember_known-IsSound :
      (at : Option ℕ) (existing : Revision) (table : Table)
      → IsSound digest_of table
      → IsSound digest_of (remember_known at existing table).1
  unfolding remember_known
  remember_known-IsSound none existing table s = s
  remember_known-IsSound (some at) existing table s = mark_deployed-IsSound existing.id at table s

  -- The new row is read back.
  pub remember_new-some :
      (now : ℕ) (input : Remember) (table : Table)
      → find_by_digest (digest_of input.document) table ≡ none
      → remember_new digest_of now input table ≡ (
        some (record { row = new_row digest_of now input table.next_id; created = true }),
        record {
          rows = table.rows ++ new_row digest_of now input table.next_id ∷ [];
          next_id = suc table.next_id;
        },
      )
  unfolding remember_new find_by_digest
  remember_new-some now input table e =
      rw
        (
          find-digest_last (digest_of input.document) table.rows
              (new_row digest_of now input table.next_id) e
              (eq_text_self (digest_of input.document)),
          remember_new,
        )
        refl

  pub remember_revision-IsSound :
      (now : ℕ) (input : Remember) (table : Table)
      → IsSound digest_of table
      → IsSound digest_of (remember_revision digest_of now input table).1
  unfolding remember_revision find_by_digest
  remember_revision-IsSound now input table s =
      elim (Option-cases (find_by_digest (digest_of input.document) table)) [
        | inl e ↦
            rw (e, remember_revision, remember_new-some now input table e)
              (record {
                rising =
                    Rising-add digest_of 0 table.rows (new_row digest_of now input table.next_id)
                      s.rising;
                distinct =
                    Distinct-add_last digest_of table.rows
                      (new_row digest_of now input table.next_id) s.distinct
                      (find-digest_none (digest_of input.document) table.rows e);
                digested = All-append (IsDigested digest_of) table.rows _ s.digested (refl, tt);
              })
        | inr (row, e) ↦
            rw (e, remember_revision) (remember_known-IsSound input.deployed_at row table s)
      ]

  pub capture-IsSound :
      (now : ℕ) (document : Text) (table : Table)
      → IsSound digest_of table
      → IsSound digest_of (capture digest_of now document table)
  unfolding capture
  capture-IsSound now document table s = elim (Bool-cases (is_empty (trim document))) [
    | inl e ↦ rw e s
    | inr e ↦ rw e (remember_revision-IsSound now (as_found document) table s)
  ]
