-- ===== src/Machines/Search.antt =====
-- src/lib/machines.ts: the words of a search.
use headtower.Prelude.{
  ◌≡◌, refl, arith, Bool, true, ◌&&◌, Option, List, [], ◌∷◌, ◌++◌, Text, all, is_space, contains,
  terms, terms-space,
}
use headtower.Language.{Language}
use headtower.Metadata.{Metadata}
use headtower.Machines.View.{NodeView}
use headtower.Machines.Filter.{haystack, matches_query}

-- `toLowerCase` looks at no neighbour across a space.
pub record LowersWords (language : Language) : Type 0 where
  pub nothing : language.lower [] ≡ []
  pub across :
      (s t : Text) → language.lower (s ++ b' ' ∷ t) ≡ language.lower s ++ b' ' ∷ language.lower t

all-append : (p : Text → Bool) (ss ts : List Text) → all p (ss ++ ts) ≡ (all p ss && all p ts)
all-append p [] ts = refl
all-append p (s ∷ ss) ts = ground (arith, all-append p ss ts)

blank_is_space : is_space b' ' ≡ true
unfolding is_space
blank_is_space = refl

-- The test of an empty query is the one that its words would give.
matches_query-terms :
    (language : Language) (laws : LowersWords language) (node : NodeView) (q : Text)
    (meta : Option Metadata)
    → matches_query language node q meta
      ≡ all (λ term. contains (language.lower (haystack node meta)) term) (terms (language.lower q))
unfolding matches_query terms
matches_query-terms language laws node [] meta = rw laws.nothing refl
matches_query-terms language laws node (c ∷ q) meta = refl

-- A search for two texts with a space between them finds the machines that a search for each of
-- them finds, where lower case looks at no neighbour across a space and keeps the empty text.
pub matches_query-both :
    (language : Language) (laws : LowersWords language) (node : NodeView) (s t : Text)
    (meta : Option Metadata)
    → matches_query language node (s ++ b' ' ∷ t) meta
      ≡ (matches_query language node s meta && matches_query language node t meta)
matches_query-both language laws node s t meta =
    let test : Text → Bool = λ term. contains (language.lower (haystack node meta)) term in
    rw
      (
        matches_query-terms language laws node (s ++ b' ' ∷ t) meta,
        matches_query-terms language laws node s meta,
        matches_query-terms language laws node t meta,
        laws.across s t,
        terms-space (language.lower s) (language.lower t) b' ' blank_is_space,
      )
      (all-append test (terms (language.lower s)) (terms (language.lower t)))
