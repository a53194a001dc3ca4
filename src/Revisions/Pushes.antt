-- ===== src/Revisions/Pushes.antt =====
-- `savePolicy` of src/app/(app)/access/actions.ts: what a push leaves in the history.
use headtower.Prelude.{
  ℕ, suc, ◌≤◌, ◌≡◌, refl, sym, ap, ◌∙◌, inl, inr, arith, Bool, true, false, Option, none, some,
  List, [], ◌∷◌, ◌++◌, map, Text, eq_text, eq_text_iff, eq_text_self, find, find-holds,
  if◌then◌else◌, Bool-cases, Option-cases, ==_iff,
}
use mathlib.Core.Option
use headtower.Authz.{Session}
use headtower.Revisions.{
  Revision, Table, Remembered, has_id, has_digest, update_row, mark_deployed, get_revision,
  find_by_digest, remember_known, remember_revision, new_row, or_same,
}
use headtower.Revisions.Actions.{pushed_by}
use headtower.Revisions.Unique.{IsSound, Rising}
use headtower.Revisions.Store.{remember_new-some, find-digest_last}

find-above :
    (p : Revision → Bool) (low : ℕ) (rows : List Revision) (next : ℕ) (x : Revision)
    → Rising low rows next
    → find p rows ≡ some x
    → low ≤ x.id
find-above p low [] next x r e = cc
find-above p low (row ∷ rows) next x (h, r) e = elim (Bool-cases (p row)) [
  | inl f ↦ let same : some row ≡ some x = rw f at e in ground (arith, same, h)
  | inr f ↦
      let later : find p rows ≡ some x = rw f at e in
      omega (arith, find-above p (suc row.id) rows next x r later)
]

-- Ids ascend, so that the rows of one id are one.
find-same :
    (p q : Revision → Bool) (low : ℕ) (rows : List Revision) (next : ℕ) (x y : Revision)
    → Rising low rows next
    → find p rows ≡ some x
    → find q rows ≡ some y
    → x.id ≡ y.id
    → x ≡ y
find-same p q low [] next x y r e f s = cc
find-same p q low (row ∷ rows) next x y (h, r) e f s = elim (Bool-cases (p row)) [
  | inl a ↦ elim (Bool-cases (q row)) [
    | inl b ↦
        let one : some row ≡ some x = rw a at e in let two : some row ≡ some y = rw b at f in cc
    | inr b ↦
        let one : some row ≡ some x = rw a at e in
        let two : find q rows ≡ some y = rw b at f in
        absurd (ground (arith, one, s, find-above q (suc row.id) rows next y r two))
  ]
  | inr a ↦ elim (Bool-cases (q row)) [
    | inl b ↦
        let one : find p rows ≡ some x = rw a at e in
        let two : some row ≡ some y = rw b at f in
        absurd (ground (arith, two, s, find-above p (suc row.id) rows next x r one))
    | inr b ↦ find-same p q (suc row.id) rows next x y r (rw a at e) (rw b at f) s
  ]
]

abbrev stamped : ℕ → ℕ → Revision → Revision
stamped id at row = if has_id id row then record row { last_deployed_at = some at } else row

find-stamped :
    (digest : Text) (id at : ℕ) (rows : List Revision)
    → find (has_digest digest) (map (stamped id at) rows)
      ≡ Option.map (stamped id at) (find (has_digest digest) rows)
find-stamped digest id at [] = refl
find-stamped digest id at (row ∷ rows) = elim (Bool-cases (has_id id row)) [
  | inl e ↦ elim (Bool-cases (eq_text digest row.digest)) [
    | inl f ↦ rw (e, f, e) refl
    | inr f ↦ rw (e, f) (find-stamped digest id at rows)
  ]
  | inr e ↦ elim (Bool-cases (eq_text digest row.digest)) [
    | inl f ↦ rw (e, f, e) refl
    | inr f ↦ rw (e, f) (find-stamped digest id at rows)
  ]
]

or_same-id :
    (id : ℕ) (found : Option Revision) (row : Revision)
    → row.id ≡ id
    → ((x : Revision) → found ≡ some x → x.id ≡ id)
    → (or_same found row).id ≡ id
or_same-id id none row e h = e
or_same-id id (some x) row e h = h x refl

get_revision-id :
    (id : ℕ) (table : Table) (x : Revision) → get_revision id table ≡ some x → x.id ≡ id
unfolding get_revision
get_revision-id id table x e = (==_iff x.id id).0 (find-holds (has_id id) table.rows x e)

module _ (digest_of : Text → Text) where
  -- The one row of the document has the id and the time; the rows of other documents are as before.
  abbrev pub Stamped : ℕ → Text → Table → ℕ → Table → Type 0
  Stamped now document table id table' =
      ((row : Revision) × (find_by_digest (digest_of document) table' ≡ some row)
        × (row.id ≡ id)
        × (row.last_deployed_at ≡ some now))
      × ((d : Text)
          → eq_text d (digest_of document) ≡ false
          → find_by_digest d table' ≡ find_by_digest d table)

  Stamped-mark :
      (now : ℕ) (document : Text) (table : Table) (existing : Revision)
      → IsSound digest_of table
      → find_by_digest (digest_of document) table ≡ some existing
      → Stamped now document table existing.id (mark_deployed existing.id now table)
  unfolding find_by_digest mark_deployed update_row
  Stamped-mark now document table existing s e = (
    (
      record existing { last_deployed_at = some now },
      find-stamped (digest_of document) existing.id now table.rows
          ∙ rw (e, (==_iff existing.id existing.id).1 refl) refl,
      refl,
      refl,
    ),
    λ d other.
        find-stamped d existing.id now table.rows
        ∙ (elim (Option-cases (find (has_digest d) table.rows)) [
          | inl f ↦ rw f refl
          | inr (row, f) ↦ rw f (
              ap some (elim (Bool-cases (has_id existing.id row)) [
                | inr g ↦ rw g refl
                | inl g ↦
                    let one =
                      find-same (has_digest d) (has_digest (digest_of document)) 0 table.rows
                        table.next_id row existing s.rising f e ((==_iff row.id existing.id).0 g) in
                    let mine : eq_text d row.digest ≡ true =
                      find-holds (has_digest d) table.rows row f in
                    let theirs : eq_text (digest_of document) existing.digest ≡ true =
                      find-holds (has_digest (digest_of document)) table.rows existing e in
                    absurd (
                      ground (
                        arith,
                        one,
                        mine,
                        theirs,
                        other,
                        eq_text_iff d row.digest,
                        eq_text_iff (digest_of document) existing.digest,
                        eq_text_iff d (digest_of document),
                      ))
              ]))
        ]),
  )

  find-digest_other :
      (d : Text) (rows : List Revision) (row : Revision)
      → eq_text d row.digest ≡ false
      → find (has_digest d) (rows ++ row ∷ []) ≡ find (has_digest d) rows
  find-digest_other d [] row e = rw e refl
  find-digest_other d (first ∷ rows) row e = ground (arith, find-digest_other d rows row e)

  Stamped-append :
      (now : ℕ) (who : Session) (document : Text) (table : Table)
      → find_by_digest (digest_of document) table ≡ none
      → Stamped now document table table.next_id (record {
        rows = table.rows ++ new_row digest_of now (pushed_by now who document) table.next_id ∷ [];
        next_id = suc table.next_id;
      })
  unfolding find_by_digest new_row
  Stamped-append now who document table e =
      let row = new_row digest_of now (pushed_by now who document) table.next_id in
      (
        (
          row,
          find-digest_last digest_of (digest_of document) table.rows row e
              (eq_text_self (digest_of document)),
          refl,
          refl,
        ),
        λ d other. find-digest_other d table.rows row other,
      )

  pub remember-Stamped :
      (now : ℕ) (who : Session) (document : Text) (table : Table)
      → IsSound digest_of table
      → (result : Remembered) × (table' : Table) × (remember_revision digest_of now
            (pushed_by now who document)
            table
          ≡ (some result, table'))
        × Stamped now document table result.row.id table'
  unfolding remember_revision remember_known
  remember-Stamped now who document table s =
      elim (Option-cases (find_by_digest (digest_of document) table)) [
        | inl e ↦
            let row = new_row digest_of now (pushed_by now who document) table.next_id in
            (
              record { row = row; created = true },
              record { rows = table.rows ++ row ∷ []; next_id = suc table.next_id },
              rw (e, remember_revision)
                  (remember_new-some digest_of now (pushed_by now who document) table e),
              Stamped-append now who document table e,
            )
        | inr (existing, e) ↦
            let marked = mark_deployed existing.id now table in
            let row = or_same (get_revision existing.id marked) existing in
            let same : row.id ≡ existing.id =
              or_same-id existing.id (get_revision existing.id marked) existing refl
                (get_revision-id existing.id marked) in
            let ((found, p, q, r), others) = Stamped-mark now document table existing s e in
            (
              record { row = row; created = false },
              marked,
              rw (e, remember_revision) refl,
              ((found, p, q ∙ sym same, r), others),
            )
      ]
