-- ===== src/Policy/Document/Tests.antt =====
-- A small policy document, read and written.
use headtower.Prelude.{
  is_space, is_digits, ◌≡◌, ◌++◌, refl, false, List, [], ◌∷◌, Text, lit, has, eq_text, inl, inr,
  is_empty, trim, All, ◌⊎◌,
}
use headtower.Json.{index_key, has_key, Json, null, str, obj, Fields, end, field, get}
use headtower.Policy.Hujson.{document, scan, parse_hujson, strip_hujson}
use headtower.Policy.Hujson.Pieces.{
  Piece, plain, quoted, remark, aside, unit, escape, all_of, written, kept, PieceOk, scan-pieces,
}
use headtower.Policy.Model.{empty_model}
use headtower.Policy.Model.Parse.{parse_model}
use headtower.Policy.Model.Write.{write_model, list, objects}
use headtower.Policy.Model.Unknown.{get-write_model}
use headtower.Policy.Model.Canonical.{Canonical}
use headtower.Policy.Model.Lossless.{write_model-parse}

abbrev rule : Fields
rule = field (lit "action") (str (lit "accept")) (
    field (lit "comment") (str (lit "all")) (
      field (lit "src") (list (lit "group:a" ∷ []))
        (field (lit "dst") (list (lit "*:*" ∷ [])) end)))

abbrev root : Fields
root = field (lit "acls") (objects (rule ∷ [])) (
    field (lit "randomizeClientPort") null
      (field (lit "groups") (obj (field (lit "group:a") (list (lit "ann@" ∷ [])) end)) end))

root-Canonical : Canonical root
unfolding get eq_text lit trim has_key index_key is_digits
root-Canonical = record {
  groups = inr (
    field (lit "group:a") (list (lit "ann@" ∷ [])) end,
    (refl, ((refl, (refl, (refl, refl))), ((lit "ann@" ∷ [], refl), tt))),
  );
  tag_owners = inl refl;
  hosts = inl refl;
  acls = inr (
    rule ∷ [],
    (
      refl,
      (((lit "accept", (refl, refl)), ((lit "group:a" ∷ [], refl), (lit "*:*" ∷ [], refl))), tt),
    ),
  );
  ssh = inl refl;
  node_attrs = inl refl;
  grants = inl refl;
  auto_approvers = inl refl;
}

write_model-parse_example : write_model (parse_model root) root ≡ root
write_model-parse_example = write_model-parse root root-Canonical

port_key_unknown :
    has (lit "randomizeClientPort") (
      lit "groups"
      ∷ lit "tagOwners"
      ∷ lit "hosts"
      ∷ lit "acls"
      ∷ lit "ssh"
      ∷ lit "nodeAttrs"
      ∷ lit "grants"
      ∷ lit "autoApprovers"
      ∷ [])
    ≡ false
unfolding has eq_text lit
port_key_unknown = refl

get-write_model_example :
    get (lit "randomizeClientPort") (write_model empty_model root)
    ≡ get (lit "randomizeClientPort") root
get-write_model_example =
    get-write_model empty_model root (lit "randomizeClientPort") port_key_unknown

-- A parser that knows one document.
abbrev one_parse : Text → Text ⊎ Json
one_parse source = inr (obj root)

abbrev show_json : Json → Text
show_json (obj fs) = lit "{}"
show_json _ = []

source_not_blank : is_empty (trim (lit "{}")) ≡ false
unfolding trim lit
source_not_blank = refl

parsed_root : parse_hujson one_parse (lit "{}") ≡ inr (obj root)
unfolding parse_hujson
parsed_root = refl

abbrev pieces : List Piece
pieces =
    quoted (unit 97 ∷ escape 34 ∷ unit 47 ∷ unit 47 ∷ [])
    ∷ plain 58
    ∷ aside (lit "x")
    ∷ remark (lit "y")
    ∷ []

pieces_ok : All PieceOk pieces
unfolding lit
pieces_ok = (
  ((refl, refl), (tt, ((refl, refl), ((refl, refl), tt)))),
  ((refl, refl), ((refl, tt), ((refl, tt), tt))),
)

scan-pieces_example :
    scan document (all_of written pieces ++ []) ≡ all_of kept pieces ++ scan document []
scan-pieces_example = scan-pieces pieces [] pieces_ok

-- The comma inside the string is lost.
lost_comma : strip_hujson (lit "\"x,}\"") ≡ lit "\"x}\""
unfolding strip_hujson lit is_space
lost_comma = refl
