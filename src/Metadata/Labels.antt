-- ===== src/Metadata/Labels.antt =====
-- src/lib/db/node-metadata-types.ts: what the normalisers make of values within the limits.
use headtower.Prelude.{
  ◌≤◌, ◌≡◌, refl, ap, ◌∙◌, arith, false, not, leb, Option, none, some, List, [], ◌∷◌, ◌++◌, map,
  Text, has, add, add_all, add_all-full, unique, unique-unique, any, keep, take_all, length, All,
  All-append, is_empty, trim, trim-trim, Bool-cases, inl, inr, if◌then◌else◌,
}
use headtower.Metadata.{
  note_max_length, label_max_count, label_max_length, normalize_note, labels_from, normalize_labels,
}
use headtower.Metadata.Actions.{text_values, distinct_labels, long_label}

-- The labels that a set of labels is made of
abbrev tidied : List (Option Text) → List Text
tidied raws = keep (λ l. not (is_empty l)) (map trim (text_values raws))

-- Within the limits, the loop of normalizeLabels cuts nothing and stops only where nothing is left
-- to add.
labels_from-fits :
    (raws : List (Option Text)) (out : List Text)
    → any long_label (text_values raws) ≡ false
    → length (add_all (tidied raws) out) ≤ label_max_count
    → labels_from out raws ≡ add_all (tidied raws) out
unfolding labels_from text_values add_all add
labels_from-fits [] out short few = refl
labels_from-fits (none ∷ raws) out short few = labels_from-fits raws out short few
labels_from-fits (some raw ∷ raws) out short few =
    let fits : length (trim raw) ≤ label_max_length = ground arith in
    let rest : any long_label (text_values raws) ≡ false = ground arith in
    rw (take_all label_max_length (trim raw) fits) (elim (Bool-cases (is_empty (trim raw))) [
      | inl blank ↦ rw blank (labels_from-fits raws out rest (rw blank at few))
      | inr given ↦
          let few' = rw given at few in
          rw given (elim (Bool-cases (has (trim raw) out)) [
            | inl old ↦ rw old (labels_from-fits raws out rest (rw old at few'))
            | inr new ↦
                rw new (elim (Bool-cases (leb label_max_count (length (out ++ trim raw ∷ [])))) [
                  | inl full ↦
                      let same =
                        add_all-full (tidied raws) (out ++ trim raw ∷ [])
                          (ground (arith, full, rw new at few')) in
                      rw (full, same) refl
                  | inr room ↦
                      rw room (labels_from-fits raws (out ++ trim raw ∷ []) rest (rw new at few'))
                ])
          ])
    ])

-- A label that trimming keeps, that is not blank, and that is short enough.
abbrev Tidy : Text → Type 0
Tidy l = (trim l ≡ l) × (is_empty l ≡ false) × (length l ≤ label_max_length)

tidied-Tidy :
    (raws : List (Option Text)) → any long_label (text_values raws) ≡ false → All Tidy (tidied raws)
unfolding text_values
tidied-Tidy [] short = tt
tidied-Tidy (none ∷ raws) short = tidied-Tidy raws short
tidied-Tidy (some raw ∷ raws) short =
    let rest : any long_label (text_values raws) ≡ false = ground arith in
    elim (Bool-cases (is_empty (trim raw))) [
      | inl blank ↦ rw blank (tidied-Tidy raws rest)
      | inr given ↦ rw given ((trim-trim raw, given, ground arith), tidied-Tidy raws rest)
    ]

add_all-Tidy : (ss ts : List Text) → All Tidy ss → All Tidy ts → All Tidy (add_all ss ts)
unfolding add_all add
add_all-Tidy [] ts hs ht = ht
add_all-Tidy (s ∷ ss) ts (h, hs) ht = elim (Bool-cases (has s ts)) [
  | inl old ↦ rw old (add_all-Tidy ss ts hs ht)
  | inr new ↦ rw new (add_all-Tidy ss (ts ++ s ∷ []) hs (All-append Tidy ts (s ∷ []) ht (h, tt)))
]

-- Tidy labels, written and read back, are the same labels.
tidied-again : (ls : List Text) → All Tidy ls → tidied (map (λ l. some l) ls) ≡ ls
unfolding text_values
tidied-again [] h = refl
tidied-again (l ∷ ls) ((same, given, short), h) = rw (same, given) (ap (◌∷◌ l) (tidied-again ls h))

short_again :
    (ls : List Text) → All Tidy ls → any long_label (text_values (map (λ l. some l) ls)) ≡ false
unfolding text_values
short_again [] h = refl
short_again (l ∷ ls) ((same, given, short), h) = rw same (ground (arith, short_again ls h))

module _ (raws : List (Option Text)) (short : any long_label (text_values raws) ≡ false)
    (few : length (distinct_labels raws) ≤ label_max_count) where
  -- Labels within the limits are kept whole, each once.
  pub normalize_labels-distinct : normalize_labels raws ≡ distinct_labels raws
  unfolding normalize_labels distinct_labels unique
  normalize_labels-distinct = labels_from-fits raws [] short few

  kept_Tidy : All Tidy (distinct_labels raws)
  unfolding distinct_labels unique
  kept_Tidy = add_all-Tidy (tidied raws) [] (tidied-Tidy raws short) tt

  distinct_again : distinct_labels (map (λ l. some l) (distinct_labels raws)) ≡ distinct_labels raws
  unfolding distinct_labels
  distinct_again = rw (tidied-again (distinct_labels raws) kept_Tidy) (unique-unique (tidied raws))

-- And they pass through normalizeLabels again unchanged.
pub normalize_labels-again :
    (raws : List (Option Text))
    → any long_label (text_values raws) ≡ false
    → length (distinct_labels raws) ≤ label_max_count
    → normalize_labels (map (λ l. some l) (distinct_labels raws)) ≡ distinct_labels raws
normalize_labels-again raws short few =
    let again = distinct_again raws short few in
    normalize_labels-distinct (map (λ l. some l) (distinct_labels raws))
      (short_again (distinct_labels raws) (kept_Tidy raws short few)) (rw again few)
    ∙ again

-- A note within the limit, trimmed or not, is its trimmed text, and is none when that is blank.
abbrev pub tidy_note : Text → Option Text
tidy_note raw = if is_empty (trim raw) then none else some (trim raw)

pub normalize_note-tidy :
    (raw : Text) → length (trim raw) ≤ note_max_length → normalize_note (some raw) ≡ tidy_note raw
unfolding normalize_note
normalize_note-tidy raw fits = rw (take_all note_max_length (trim raw) fits) refl

normalize_note-trimmed :
    (raw : Text)
    → length (trim raw) ≤ note_max_length
    → normalize_note (some (trim raw)) ≡ tidy_note raw
normalize_note-trimmed raw fits =
    normalize_note-tidy (trim raw) (rw (trim-trim raw) fits) ∙ rw (trim-trim raw) refl

normalize_note-kept :
    (raw : Text)
    → length (trim raw) ≤ note_max_length
    → normalize_note (tidy_note raw) ≡ tidy_note raw
unfolding normalize_note
normalize_note-kept raw fits = elim (Bool-cases (is_empty (trim raw))) [
  | inl blank ↦ rw blank refl
  | inr given ↦ rw (given, trim-trim raw, given, take_all note_max_length (trim raw) fits) refl
]

-- Three normalisations of a note, as on the way from the form into the table and back, are one.
pub normalize_note-again :
    (raw : Text)
    → length (trim raw) ≤ note_max_length
    → normalize_note (normalize_note (normalize_note (some (trim raw)))) ≡ tidy_note raw
normalize_note-again raw fits =
    rw (normalize_note-trimmed raw fits, normalize_note-kept raw fits)
      (normalize_note-kept raw fits)
