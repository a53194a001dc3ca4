-- ===== src/Revisions/Unique.antt =====
-- src/lib/db/policy-revisions.ts: the table is a set of documents.
use headtower.Prelude.{
  ℕ, suc, ◌≤◌, ◌≡◌, refl, sym, ap, ◌∙◌, inl, inr, arith, Bool, false, ◌||◌, List, [], ◌∷◌, ◌++◌,
  map, Text, eq_text, eq_text_iff, has, Distinct, keep, All, if◌then◌else◌, Bool-cases,
}
use headtower.Revisions.{Revision, Table, has_id, update_row}

-- The ids ascend below the next one.
abbrev pub Rising : ℕ → List Revision → ℕ → Type 0
Rising low [] next = low ≤ next
Rising low (row ∷ rows) next = (low ≤ row.id) × Rising (suc row.id) rows next

abbrev pub digests : List Revision → List Text
digests rows = map (λ row. row.digest) rows

module _ (digest_of : Text → Text) where
  abbrev pub IsDigested : Revision → Type 0
  IsDigested row = row.digest ≡ digest_of row.document

  -- No id and no digest twice, and every digest is that of its document.
  pub record IsSound (table : Table) : Type 0 where
    pub rising : Rising 0 table.rows table.next_id
    pub distinct : Distinct (digests table.rows)
    pub digested : All IsDigested table.rows

  Rising-weaken :
      (low low' : ℕ) (rows : List Revision) (next : ℕ)
      → low' ≤ low
      → Rising low rows next
      → Rising low' rows next
  Rising-weaken low low' [] next h r = omega arith
  Rising-weaken low low' (row ∷ rows) next h (p, r) = (omega arith, r)

  pub Rising-keep :
      (p : Revision → Bool) (low : ℕ) (rows : List Revision) (next : ℕ)
      → Rising low rows next
      → Rising low (keep p rows) next
  Rising-keep p low [] next r = r
  Rising-keep p low (row ∷ rows) next (h, r) = elim (Bool-cases (p row)) [
    | inl e ↦ rw e (h, Rising-keep p (suc row.id) rows next r)
    | inr e ↦ rw e (
        Rising-weaken (suc row.id) low (keep p rows) next (omega arith)
          (Rising-keep p (suc row.id) rows next r))
  ]

  pub Rising-add :
      (low : ℕ) (rows : List Revision) (row : Revision)
      → Rising low rows row.id
      → Rising low (rows ++ row ∷ []) (suc row.id)
  Rising-add low [] row r = (r, omega arith)
  Rising-add low (first ∷ rows) row (h, r) = (h, Rising-add (suc first.id) rows row r)

  digests-keep :
      (p : Revision → Bool) (s : Text) (rows : List Revision)
      → has s (digests rows) ≡ false
      → has s (digests (keep p rows)) ≡ false
  unfolding has
  digests-keep p s [] e = refl
  digests-keep p s (row ∷ rows) e = elim (Bool-cases (p row)) [
    | inl h ↦ rw h (ground (arith, digests-keep p s rows))
    | inr h ↦ rw h (ground (arith, digests-keep p s rows))
  ]

  pub Distinct-keep :
      (p : Revision → Bool) (rows : List Revision)
      → Distinct (digests rows)
      → Distinct (digests (keep p rows))
  Distinct-keep p [] d = tt
  Distinct-keep p (row ∷ rows) (new, d) = elim (Bool-cases (p row)) [
    | inl h ↦ rw h (digests-keep p row.digest rows new, Distinct-keep p rows d)
    | inr h ↦ rw h (Distinct-keep p rows d)
  ]

  has-add_last :
      (s : Text) (rows : List Revision) (row : Revision)
      → has s (digests (rows ++ row ∷ [])) ≡ (has s (digests rows) || eq_text s row.digest)
  unfolding has
  has-add_last s [] row = ground arith
  has-add_last s (first ∷ rows) row = ground (arith, has-add_last s rows row)

  pub Distinct-add_last :
      (rows : List Revision) (row : Revision)
      → Distinct (digests rows)
      → has row.digest (digests rows) ≡ false
      → Distinct (digests (rows ++ row ∷ []))
  unfolding has
  Distinct-add_last [] row d e = (refl, tt)
  Distinct-add_last (first ∷ rows) row (new, d) e = (
    rw (has-add_last first.digest rows row) (
        ground (
          arith,
          new,
          e,
          eq_text_iff first.digest row.digest,
          eq_text_iff row.digest first.digest,
        )),
    Distinct-add_last rows row d (ground (arith, e)),
  )

  -- A change of rows that leaves id, digest and document alone.
  abbrev Minor : (Revision → Revision) → Type 0
  Minor change =
      (row : Revision)
      → ((change row).id ≡ row.id)
        × ((change row).digest ≡ row.digest)
        × ((change row).document ≡ row.document)

  module _ (id : ℕ) (change : Revision → Revision) (minor : Minor change) where
    abbrev changed : Revision → Revision
    changed row = if has_id id row then change row else row

    changed-Minor : Minor changed
    changed-Minor row = elim (Bool-cases (has_id id row)) [
      | inl e ↦ rw e (minor row)
      | inr e ↦ rw e (refl, refl, refl)
    ]

    Rising-changed :
        (low : ℕ) (rows : List Revision) (next : ℕ)
        → Rising low rows next
        → Rising low (map changed rows) next
    Rising-changed low [] next r = r
    Rising-changed low (row ∷ rows) next (h, r) =
        let same = (changed-Minor row).0 in
        (rw same h, rw same (Rising-changed (suc row.id) rows next r))

    digests-changed : (rows : List Revision) → digests (map changed rows) ≡ digests rows
    digests-changed [] = refl
    digests-changed (row ∷ rows) = λ i. (changed-Minor row).1 i ∷ digests-changed rows i

    All-changed : (rows : List Revision) → All IsDigested rows → All IsDigested (map changed rows)
    All-changed [] h = tt
    All-changed (row ∷ rows) (d, h) =
        let (p, q, r) = changed-Minor row in (q ∙ d ∙ ap digest_of (sym r), All-changed rows h)

    pub update_row-IsSound : (table : Table) → IsSound table → IsSound (update_row id change table)
    unfolding update_row
    update_row-IsSound table s = record {
      rising = Rising-changed 0 table.rows table.next_id s.rising;
      distinct = rw (digests-changed table.rows) s.distinct;
      digested = All-changed table.rows s.digested;
    }
