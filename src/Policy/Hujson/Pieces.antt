-- ===== src/Policy/Hujson/Pieces.antt =====
-- src/lib/policy/hujson.ts: the lexical form of a HuJSON text, and what the loop makes of it.
use mathlib.Core.List.{append_assoc}
use headtower.Prelude.{
  ℕ, ◌≡◌, ◌∙◌, ap, sym, refl, false, ◌&&◌, List, [], ◌∷◌, ◌++◌, Text, ◌==◌, All,
}
use headtower.Policy.Hujson.{document, in_string, line, block, next_is, scan}

-- A character of a string literal, or a backslash and what follows it.
pub data Item : Type 0 where
  unit : ℕ → Item
  escape : ℕ → Item

abbrev pub spelled : List Item → Text
spelled [] = []
spelled (unit c ∷ items) = c ∷ spelled items
spelled (escape c ∷ items) = b'\\' ∷ c ∷ spelled items

abbrev pub ItemOk : Item → Type 0
ItemOk (unit c) = ((c == b'\\') ≡ false) × ((c == b'"') ≡ false)
ItemOk (escape c) = Unit

-- A text without the two characters that close a block comment.
abbrev pub Open : Text → Type 0
Open [] = Unit
Open (c ∷ body) = ((c == b'*' && next_is b'/' body) ≡ false) × Open body

pub data Piece : Type 0 where
  plain : ℕ → Piece
  quoted : List Item → Piece
  remark : Text → Piece
  aside : Text → Piece

-- A piece as it is written, and what stripping the comments leaves of it.
abbrev pub written : Piece → Text
written (plain c) = c ∷ []
written (quoted items) = b'"' ∷ spelled items ++ b'"' ∷ []
written (remark body) = b'/' ∷ b'/' ∷ body ++ b'\n' ∷ []
written (aside body) = b'/' ∷ b'*' ∷ body ++ b'*' ∷ b'/' ∷ []

abbrev pub kept : Piece → Text
kept (plain c) = c ∷ []
kept (quoted items) = b'"' ∷ spelled items ++ b'"' ∷ []
kept (remark body) = b'\n' ∷ []
kept (aside body) = []

abbrev pub PieceOk : Piece → Type 0
PieceOk (plain c) = ((c == b'"') ≡ false) × ((c == b'/') ≡ false)
PieceOk (quoted items) = All ItemOk items
PieceOk (remark body) = All (λ c. (c == b'\n') ≡ false) body
PieceOk (aside body) = Open body

abbrev pub all_of : (Piece → Text) → List Piece → Text
all_of f [] = []
all_of f (p ∷ ps) = f p ++ all_of f ps

scan_string :
    (items : List Item) (rest : Text)
    → All ItemOk items
    → scan in_string ((spelled items ++ b'"' ∷ []) ++ rest)
      ≡ (spelled items ++ b'"' ∷ []) ++ scan document rest
unfolding scan
scan_string [] rest ok = refl
scan_string (unit c ∷ items) rest ((s, q), ok) = rw (s, q) (ap (◌∷◌ c) (scan_string items rest ok))
scan_string (escape c ∷ items) rest (_, ok) = ap (λ t. b'\\' ∷ c ∷ t) (scan_string items rest ok)

scan_line :
    (body rest : Text)
    → All (λ c. (c == b'\n') ≡ false) body
    → scan line ((body ++ b'\n' ∷ []) ++ rest) ≡ b'\n' ∷ scan document rest
unfolding scan
scan_line [] rest ok = refl
scan_line (c ∷ body) rest (n, ok) = rw n (scan_line body rest ok)

peek : (body rest : Text) → next_is b'/' ((body ++ b'*' ∷ b'/' ∷ []) ++ rest) ≡ next_is b'/' body
unfolding next_is
peek [] rest = refl
peek (d ∷ body) rest = refl

scan_block :
    (body rest : Text)
    → Open body
    → scan block ((body ++ b'*' ∷ b'/' ∷ []) ++ rest) ≡ scan document rest
unfolding scan next_is
scan_block [] rest ok = refl
scan_block (c ∷ body) rest (o, ok) =
    let passes : (c == b'*' && next_is b'/' ((body ++ b'*' ∷ b'/' ∷ []) ++ rest)) ≡ false =
      rw (peek body rest) o in
    rw passes (scan_block body rest ok)

scan_piece :
    (p : Piece) (rest : Text)
    → PieceOk p
    → scan document (written p ++ rest) ≡ kept p ++ scan document rest
unfolding scan next_is
scan_piece (plain c) rest (q, s) = rw (q, s) refl
scan_piece (quoted items) rest ok = ap (◌∷◌ b'"') (scan_string items rest ok)
scan_piece (remark body) rest ok = scan_line body rest ok
scan_piece (aside body) rest ok = scan_block body rest ok

-- On a text made of string literals, line comments, block comments and other characters that are
-- neither a quote nor a slash, the loop of stripHujson copies the literals and those characters,
-- turns each line comment into its newline, drops each block comment, and goes on with what
-- follows.
pub scan-pieces :
    (ps : List Piece) (rest : Text)
    → All PieceOk ps
    → scan document (all_of written ps ++ rest) ≡ all_of kept ps ++ scan document rest
scan-pieces [] rest ok = refl
scan-pieces (p ∷ ps) rest (q, ok) =
    ap (scan document) (append_assoc (written p) (all_of written ps) rest)
    ∙ scan_piece p (all_of written ps ++ rest) q
    ∙ ap (◌++◌ (kept p)) (scan-pieces ps rest ok)
    ∙ sym (append_assoc (kept p) (all_of kept ps) (scan document rest))
