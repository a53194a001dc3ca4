-- ===== src/Policy/Document.antt =====
-- src/lib/policy/model.ts: whole policy documents, over JSON.parse and JSON.stringify.
pub mod Tests
use headtower.Prelude.{
  ◌≡◌, ap, Bool, true, false, Option, none, some, Text, lit, is_empty, trim, ◌⊎◌, inl, inr,
  if◌then◌else◌,
}
use headtower.Json.{Json, obj, Fields, end, null, bool, num, str, arr}
use headtower.Policy.Hujson.{parse_hujson, clean_parse_message}
use headtower.Policy.Model.{PolicyModel, empty_model}
use headtower.Policy.Model.Parse.{parse_model, as_object}
use headtower.Policy.Model.Write.{write_model}
use headtower.Policy.Model.Canonical.{Canonical}
use headtower.Policy.Model.Lossless.{write_model-parse}

-- `ParsedPolicy`
pub record ParsedPolicy : Type 0 where
  pub ok : Bool
  pub model : PolicyModel
  pub root : Fields
  pub error : Option Text

abbrev pub unread : Text → ParsedPolicy
unread reason = record { ok = false; model = empty_model; root = end; error = some reason }

-- What `parsePolicy` makes of the answer of `parseHujson`.
unfoldable pub parsed_object : Option Fields → ParsedPolicy
unfolding parse_model
parsed_object none = unread (lit "The policy must be a JSON object.")
parsed_object (some root) = record {
  ok = true;
  model = parse_model root;
  root = root;
  error = none;
}

unfoldable pub parsed_answer : Text ⊎ Json → ParsedPolicy
unfolding clean_parse_message as_object parsed_object
parsed_answer (inl message) = unread (clean_parse_message message)
parsed_answer (inr value) = parsed_object (as_object (some value))

-- `serializePolicy`, by `JSON.stringify` with an indentation of two.
unfoldable pub serialize_policy : (Json → Text) → PolicyModel → Fields → Text
unfolding write_model
serialize_policy stringify model root = stringify (obj (write_model model root))

module _ (parse : Text → Text ⊎ Json) where
  -- `parsePolicy`
  unfoldable pub parse_policy : Text → ParsedPolicy
  unfolding parse_hujson parsed_answer
  parse_policy source =
      if is_empty (trim source)
      then record { ok = true; model = empty_model; root = end; error = none }
      else parsed_answer (parse_hujson parse source)

  -- `roundTripPolicy`
  unfoldable pub round_trip_policy : (Json → Text) → Text → Text
  unfolding parse_policy serialize_policy
  round_trip_policy stringify source =
      let read = parse_policy source in serialize_policy stringify read.model read.root

  -- For a source that is not blank and that parseHujson reads as a root object in the editor's
  -- shape, roundTripPolicy prints that object.
  pub round_trip_policy-Canonical :
      (stringify : Json → Text) (source : Text) (root : Fields)
      → is_empty (trim source) ≡ false
      → parse_hujson parse source ≡ inr (obj root)
      → Canonical root
      → round_trip_policy stringify source ≡ stringify (obj root)
  unfolding round_trip_policy parse_policy serialize_policy parsed_answer parsed_object as_object
  round_trip_policy-Canonical stringify source root e p c =
      rw (e, p) (ap (λ fs. stringify (obj fs)) (write_model-parse root c))
