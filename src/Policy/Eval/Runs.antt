-- ===== src/Policy/Eval/Runs.antt =====
-- src/lib/policy/eval.ts: what the loops return, whatever the notes are.
use headtower.Prelude.{
  ℕ, ◌≡◌, refl, ap, inl, inr, Bool, true, false, Option, none, some, List, [], ◌∷◌, ◌++◌, Text,
  find, Bool-cases, lit, add,
}
use headtower.Language.{Language}
use headtower.Policy.Tokens.{split_dst_ports}
use headtower.Policy.Model.{PolicyModel}
use headtower.Policy.Eval.Expand.{Expansion}
use headtower.Policy.Eval.Proto.{Proto, proto_text}
use headtower.Policy.Eval.Query.{Asked, M, ◌>>=◌, pure, note_when}
use headtower.Policy.Eval.Evaluate.{
  note_proto, aliases, expand_fresh, first_covered, first_destination,
}
use headtower.Policy.Eval.Notes.{expand-Same}
use headtower.Policy.Eval.Spec.{meaning}
use headtower.Policy.Eval.Answers.{Suffices, covered, lands}

-- A computation returns this value from any notes.
abbrev pub Runs : {A : Type 0} → M A → A → Type 0
Runs m a = (notes : List Text) → (notes' : List Text) × (m notes ≡ some (a, notes'))

pub Runs-pure : {A : Type 0} (a : A) → Runs (pure a) a
Runs-pure a notes = (notes, refl)

pub Runs-bind :
    {A B : Type 0} (m : M A) (f : A → M B) {a : A} {b : B}
    → Runs m a
    → Runs (f a) b
    → Runs (m >>= f) b
Runs-bind m f h k notes =
    let (notes', e) = h notes in let (notes'', e') = k notes' in (notes'', rw (e, ◌>>=◌) e')

pub Runs-note_when : (c : Bool) (text : Text) → Runs (note_when c text) tt
Runs-note_when true text notes = (add text notes, refl)
Runs-note_when false text notes = (notes, refl)

module _ (language : Language) (model : PolicyModel) (depth : ℕ) where
  pub Runs-note_proto :
      (prefix : Text) (asked found : Option Proto)
      → Runs (note_proto language model depth prefix asked found) tt
  Runs-note_proto prefix none none notes = (notes, refl)
  Runs-note_proto prefix none (some p) notes =
      (add (prefix ++ proto_text language p ++ lit ".") notes, refl)
  Runs-note_proto prefix (some w) found notes = (notes, refl)

  pub expand_fresh-Runs :
      Suffices language model depth
      → (token : Text)
      → Runs (expand_fresh language model depth token) (meaning language model depth token)
  unfolding expand_fresh meaning
  expand_fresh-Runs deep token notes =
      let (e, t, p) = deep token (record { notes = notes; seen = [] }) in
      let (e', t', q) = deep token (record { notes = []; seen = [] }) in
      let same =
        expand-Same language model (aliases language model depth) depth token
          (record { notes = notes; seen = [] }) (record { notes = []; seen = [] }) refl in
      (
        t.notes,
        rw (p, expand_fresh, q, meaning) (ap (λ x. some (x, t.notes)) ((rw (p, q) at same).0)),
      )

  module _ (deep : Suffices language model depth) where
    pub first_covered-Runs :
        (q : Expansion) (entries : List Text)
        → Runs
            (first_covered language model depth q entries)
            (find (covered language model depth q) entries)
    unfolding first_covered
    first_covered-Runs q [] = Runs-pure none
    first_covered-Runs q (entry ∷ entries) =
        Runs-bind (expand_fresh language model depth entry) _ (expand_fresh-Runs deep entry)
          (elim (Bool-cases (covered language model depth q entry)) [
            | inl hit ↦ rw hit (Runs-pure (some entry))
            | inr miss ↦ rw miss (first_covered-Runs q entries)
          ])

    pub first_destination-Runs :
        (asked : Asked) (entries : List Text)
        → Runs
            (first_destination language model depth asked entries)
            (find (lands language model depth asked) entries)
    unfolding first_destination
    first_destination-Runs asked [] = Runs-pure none
    first_destination-Runs asked (entry ∷ entries) =
        Runs-bind (expand_fresh language model depth (split_dst_ports entry).host) _
          (expand_fresh-Runs deep (split_dst_ports entry).host)
          (elim (Bool-cases (lands language model depth asked entry)) [
            | inl hit ↦ rw hit (Runs-pure (some entry))
            | inr miss ↦ rw miss (first_destination-Runs asked entries)
          ])
