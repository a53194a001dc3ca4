-- ===== src/Metadata/Rows.antt =====
-- src/lib/db/node-metadata.ts: reading the table after a row has been put into it.
use headtower.Prelude.{
  ◌≡◌, refl, true, false, Option, none, some, List, [], ◌∷◌, ◌++◌, map, Text, eq_text, eq_text_iff,
  eq_text_self, any, find, Bool-cases, inl, inr, if◌then◌else◌,
}
use headtower.Metadata.{
  Metadata, empty_metadata, Row, of_node, row_to_value, get_node_metadata, put_row,
}

-- The row that has been put in is found.
find-put_map :
    (row : Row) (rows : List Row)
    → any (of_node row.node_id) rows ≡ true
    → find (of_node row.node_id) (map (λ r. if of_node row.node_id r then row else r) rows)
      ≡ some row
find-put_map row [] h = absurd (cc h)
find-put_map row (r ∷ rows) h = elim (Bool-cases (of_node row.node_id r)) [
  | inl own ↦ rw (own, eq_text_self row.node_id) refl
  | inr other ↦ rw (other, other) (find-put_map row rows (rw other at h))
]

find-put_last :
    (row : Row) (rows : List Row)
    → any (of_node row.node_id) rows ≡ false
    → find (of_node row.node_id) (rows ++ row ∷ []) ≡ some row
find-put_last row [] h = rw (eq_text_self row.node_id) refl
find-put_last row (r ∷ rows) h = elim (Bool-cases (of_node row.node_id r)) [
  | inl own ↦ absurd (cc (rw own at h))
  | inr other ↦ rw other (find-put_last row rows (rw other at h))
]

pub find-put_row :
    (row : Row) (rows : List Row) → find (of_node row.node_id) (put_row row rows) ≡ some row
unfolding put_row
find-put_row row rows = elim (Bool-cases (any (of_node row.node_id) rows)) [
  | inl there ↦ rw there (find-put_map row rows there)
  | inr fresh ↦ rw fresh (find-put_last row rows fresh)
]

module _ (row : Row) (other : Text) (apart : eq_text row.node_id other ≡ false) where
  kept_map :
      (rows : List Row)
      → find (of_node other) (map (λ r. if of_node row.node_id r then row else r) rows)
        ≡ find (of_node other) rows
  kept_map [] = refl
  kept_map (r ∷ rows) = elim (Bool-cases (of_node row.node_id r)) [
    | inl own ↦
        let same : r.node_id ≡ row.node_id = (eq_text_iff r.node_id row.node_id).0 own in
        let far : of_node other r ≡ false = rw same apart in rw (own, apart, far) (kept_map rows)
    | inr away ↦ rw away (rw (kept_map rows) refl)
  ]

  kept_last :
      (rows : List Row) → find (of_node other) (rows ++ row ∷ []) ≡ find (of_node other) rows
  kept_last [] = rw apart refl
  kept_last (r ∷ rows) = rw (kept_last rows) refl

  pub find-put_other :
      (rows : List Row) → find (of_node other) (put_row row rows) ≡ find (of_node other) rows
  unfolding put_row
  find-put_other rows = elim (Bool-cases (any (of_node row.node_id) rows)) [
    | inl there ↦ rw there (kept_map rows)
    | inr fresh ↦ rw fresh (kept_last rows)
  ]

-- What getNodeMetadata answers, by the row that is found
pub get-found :
    (rows : List Row) (id : Text) (found : Option Row)
    → find (of_node id) rows ≡ found
    → get_node_metadata (some rows) id
      ≡ elim found as (λ f. Metadata) [ none ↦ empty_metadata | some row ↦ row_to_value row ]
unfolding get_node_metadata
get-found rows id found e = rw (e, get_node_metadata) refl
