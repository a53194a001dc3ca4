-- ===== src/Policy/Eval/Query.antt =====
-- src/lib/policy/eval.ts: the question, the answer and the computation between them.
use headtower.Prelude.{
  ℕ, Bool, Option, none, some, List, [], ◌∷◌, ◌++◌, Text, lit, add, if◌then◌else◌, is_empty, show,
}
use headtower.Policy.Eval.Expand.{Expansion}
use headtower.Policy.Eval.Proto.{Proto}

-- `EvalQuery`
pub record EvalQuery : Type 0 where
  pub src : Text
  pub dst : Text
  pub port : Option ℕ
  pub protocol : Option Text

pub data Section : Type 0 where
  acls grants : Section

-- `EvalMatch`
pub record EvalMatch : Type 0 where
  pub section : Section
  pub rule_index : ℕ
  pub src : List Text
  pub dst : List Text
  pub matched_src : Text
  pub matched_dst : Text
  pub matched_ip : Option Text

-- `EvalResult`: an allow with its match, or a deny, and the notes.
pub data Decision : Type 0 where
  allow : EvalMatch → Decision
  deny : Decision

pub record EvalResult : Type 0 where
  pub decision : Decision
  pub notes : List Text

-- A computation that adds notes; `none` is a call that ran out of stack.
abbrev pub M : Type 0 → Type 0
M A = List Text → Option (A × List Text)

infixl 5 ◌>>=◌
infixl 5 ◌>>◌
abbrev pub ◌>>=◌ : {A : Type 0} {B : Type 0} → M A → (A → M B) → M B
◌>>=◌ call rest notes = elim (call notes) [ none ↦ none | some (value, notes') ↦ rest value notes' ]

abbrev pub pure : {A : Type 0} → A → M A
pure a notes = some (a, notes)

abbrev pub add_note : Text → M (Unit {0})
add_note text notes = some (tt, add text notes)

abbrev pub ◌>>◌ : {C : Type 0} → M (Unit {0}) → M C → M C
first >> second = first >>= λ done. second

-- `if (c) notes.add(text)`
abbrev pub note_when : Bool → Text → M (Unit {0})
note_when c text = if c then add_note text else pure tt

-- The question, expanded.
pub record Asked : Type 0 where
  pub src : Expansion
  pub dst : Expansion
  pub port : Option ℕ
  pub proto : Option Proto

-- `names.join(", ")`
unfoldable pub commas : List Text → Text
commas [] = []
commas (a ∷ []) = a
commas (a ∷ b ∷ rest) = a ++ lit ", " ++ commas (b ∷ rest)

-- The two notes on a grant that matches and grants no reach.
unfoldable pub no_reach : ℕ → List Text → Text
no_reach i caps =
    if is_empty caps
    then lit "grants["
      ++ show i
      ++ lit "] matches, but carries neither ports nor an application capability."
    else lit "grants["
      ++ show i
      ++ lit "] matches, but carries only the application capability "
      ++ commas caps
      ++ lit " - that is not network reachability."

abbrev pub pick_both : List Text
pick_both = lit "Pick both a source and a destination to evaluate." ∷ []
