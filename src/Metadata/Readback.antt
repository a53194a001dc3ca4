-- ===== src/Metadata/Readback.antt =====
-- src/app/(app)/machines/[id]/metadata-actions.ts: what a saved form reads back as.
use headtower.Prelude.{
  ℕ, ◌≡◌, ◌≢◌, refl, arith, Bool, true, false, leb, Option, some, Text, eq_text, any, length,
  Bool-cases, inl, inr, ◌⊎◌,
}
use headtower.Rbac.{machines_write}
use headtower.Authz.{Session, Gate, unauthenticated, denied, granted, authorize}
use headtower.Metadata.{note_max_length, label_max_count, get_node_metadata}
use headtower.Metadata.Actions.{
  Form, Result, success, World, text_values, form_note, raw_labels, distinct_labels, long_label,
  store_metadata, check_form, save_node_metadata, gated,
}
use headtower.Metadata.Stored.{Fits, meant, store_metadata-reads, store_metadata-keeps}

Fits-cases : (form : Form) → Fits form ⊎ ¬ Fits form
Fits-cases form = elim (Bool-cases (leb (length (form_note form)) note_max_length)) [
  | inr long ↦ inr (λ fits. ground (arith, long, fits.note))
  | inl note ↦ elim (Bool-cases (any long_label (text_values (raw_labels form)))) [
    | inl long ↦ inr (λ fits. cc (long, fits.short))
    | inr short ↦
        elim (Bool-cases (leb (length (distinct_labels (raw_labels form))) label_max_count)) [
          | inr many ↦ inr (λ fits. ground (arith, many, fits.few))
          | inl few ↦
              inl (record { note = ground (arith, note); short = short; few = ground (arith, few) })
        ]
  ]
]

module _ (double : ℕ → ℕ) (taken recorded : Bool) (now : ℕ) (session : Option Session)
    (id other : Text) (form : Form) (world : World) where
  -- What it takes for a form to be saved
  pub record Acceptable : Type 0 where
    pub who : Session
    pub gate : authorize session machines_write ≡ granted who
    pub fits : Fits form
    pub stores : taken ≡ true

  -- The two ends of a request: the form is saved, and another machine keeps its metadata; or
  -- nothing has changed.
  abbrev pub Saved : Result × World → Type 0
  Saved after =
      Acceptable
      × (after.0 ≡ success)
      × (get_node_metadata (some after.1.rows) id ≡ meant now form)
      × (get_node_metadata (some after.1.rows) other ≡ get_node_metadata (some world.rows) other)

  abbrev pub Refused : Result × World → Type 0
  Refused after = ¬ Acceptable × (after.0 ≢ success) × (after.1 ≡ world)

  -- The checks of a form: a form that fits passes, and any other is refused.
  check_form-Fits :
      (who : Session)
      → Fits form
      → check_form double taken recorded now who id form world
        ≡ store_metadata double taken recorded now who id form world
  unfolding check_form
  check_form-Fits who fits = ground (arith, fits.note, fits.short, fits.few)

  check_form-unfit :
      (who : Session)
      → ¬ Fits form
      → ((check_form double taken recorded now who id form world).0 ≢ success)
        × ((check_form double taken recorded now who id form world).1 ≡ world)
  unfolding check_form
  check_form-unfit who unfit = ground (arith, unfit)

stored_outcome :
    (double : ℕ → ℕ) (taken recorded : Bool) (now : ℕ) (session : Option Session) (id other : Text)
    (form : Form) (world : World) (who : Session)
    → authorize session machines_write ≡ granted who
    → Fits form
    → eq_text id other ≡ false
    → Saved double taken recorded now session id other form world
        (store_metadata double taken recorded now who id form world)
      ⊎ Refused double taken recorded now session id other form world
          (store_metadata double taken recorded now who id form world)
unfolding store_metadata
stored_outcome double true recorded now session id other form world who gate fits apart = inl (
  record { who = who; gate = gate; fits = fits; stores = refl },
  refl,
  store_metadata-reads double recorded now who id form world fits,
  store_metadata-keeps double recorded now who id form world other apart,
)
stored_outcome double false recorded now session id other form world who gate fits apart =
    inr ((λ a. cc (a.stores)), (λ e. cc e), refl)

gated_outcome :
    (double : ℕ → ℕ) (taken recorded : Bool) (now : ℕ) (session : Option Session) (id other : Text)
    (form : Form) (world : World) (gate : Gate)
    → authorize session machines_write ≡ gate
    → eq_text id other ≡ false
    → Saved double taken recorded now session id other form world (
        gated double taken recorded
          (λ who. check_form double taken recorded now who id form world)
          world
          gate)
      ⊎ Refused double taken recorded now session id other form world (
          gated double taken recorded
            (λ who. check_form double taken recorded now who id form world)
            world
            gate)
gated_outcome double taken recorded now session id other form world unauthenticated e apart =
    inr ((λ a. cc (e, a.gate)), (λ s. cc s), refl)
gated_outcome double taken recorded now session id other form world (denied reason) e apart =
    inr ((λ a. cc (e, a.gate)), (λ s. cc s), refl)
gated_outcome double taken recorded now session id other form world (granted who) e apart =
    elim (Fits-cases form) [
      | inl fits ↦
          rw (check_form-Fits double taken recorded now session id other form world who fits)
            (stored_outcome double taken recorded now session id other form world who e fits apart)
      | inr unfit ↦
          let (failed, same) =
            check_form-unfit double taken recorded now session id other form world who unfit in
          inr ((λ a. unfit a.fits), failed, same)
    ]

-- saveNodeMetadata does one of two things, for a machine and any other. Either a session that may
-- write machines sent a form within the limits and the table took it: then it answers success,
-- and what getNodeMetadata reads is the trimmed note or none, the environment, each trimmed label
-- that is not blank once, in the order of the form, and the time of the write, while the other
-- machine has the metadata it had. Or one of these fails: then it answers no success and nothing
-- has changed.
pub save_node_metadata-Outcome :
    (double : ℕ → ℕ) (taken recorded : Bool) (now : ℕ) (session : Option Session) (id other : Text)
    (form : Form) (world : World)
    → eq_text id other ≡ false
    → Saved double taken recorded now session id other form world
        (save_node_metadata double taken recorded now session id form world)
      ⊎ Refused double taken recorded now session id other form world
          (save_node_metadata double taken recorded now session id form world)
unfolding save_node_metadata
save_node_metadata-Outcome double taken recorded now session id other form world apart =
    gated_outcome double taken recorded now session id other form world
      (authorize session machines_write) refl apart
