-- ===== src/Metadata/Tests.antt =====
-- Metadata of machines on small forms.
use headtower.Prelude.{ℕ, ◌≡◌, ◌⊎◌, refl, true, false, some, none, [], ◌∷◌, lit, eq_text, has, trim}
use headtower.Rbac.{operator}
use headtower.Authz.{Session, operator_user}
use headtower.Metadata.{normalize_labels}
use headtower.Metadata.Actions.{Form, World, save_node_metadata}
use headtower.Metadata.Readback.{Saved, Refused, save_node_metadata-Outcome}

abbrev who : Session
who = record { user = operator_user; role = operator }

abbrev form : Form
form = record {
  note = some (lit " rack 4 ");
  environment = some (lit "prod");
  labels = some (some (lit " db ") ∷ none ∷ some (lit "db") ∷ []);
}

abbrev empty : World
empty = record { rows = []; trail = [] }

tidy_labels :
    normalize_labels (some (lit " db ") ∷ none ∷ some (lit "db") ∷ some (lit " ") ∷ [])
    ≡ lit "db" ∷ []
unfolding normalize_labels lit trim eq_text has
tidy_labels = refl

-- Cutting a label can leave a space at its end, which the next reading trims.
cut_label :
    normalize_labels (some (lit "aaaaaaaaaaaaaaaaaaaaaaaaaaaaaaa b") ∷ [])
    ≡ lit "aaaaaaaaaaaaaaaaaaaaaaaaaaaaaaa " ∷ []
unfolding normalize_labels lit trim eq_text has
cut_label = refl

other_id : eq_text (lit "1") (lit "2") ≡ false
unfolding eq_text lit
other_id = refl

abbrev bits : ℕ → ℕ
bits n = n

save_node_metadata-Outcome_example :
    Saved bits true true 7
      (some who)
      (lit "1")
      (lit "2")
      form
      empty
      (save_node_metadata bits true true 7 (some who) (lit "1") form empty)
    ⊎ Refused bits true true 7
        (some who)
        (lit "1")
        (lit "2")
        form
        empty
        (save_node_metadata bits true true 7 (some who) (lit "1") form empty)
save_node_metadata-Outcome_example =
    save_node_metadata-Outcome bits true true 7 (some who) (lit "1") (lit "2") form empty other_id
