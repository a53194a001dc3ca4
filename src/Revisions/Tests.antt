-- ===== src/Revisions/Tests.antt =====
-- src/lib/db/policy-revisions.ts on a short history, with a digest that is the document itself.
use headtower.Prelude.{
  trim, ℕ, ◌≡◌, refl, arith, true, false, Option, none, some, [], ◌∷◌, Text, lit, eq_text, has,
}
use headtower.Rbac.{owner}
use headtower.Authz.{Session, oidc}
use headtower.Revisions.{Revision}
use headtower.Revisions.Actions.{Reply, taken, World, save_policy}
use headtower.Revisions.Unique.{IsSound}
use headtower.Revisions.Outcomes.{run, run-IsSound, save_policy_of, remove_of, render}
use headtower.Revisions.Saved.{Outcome, save_policy-Outcome}

-- A control plane that takes every document and keeps it.
abbrev set_policy : Text → Text → Reply × Text
set_policy plane document = (taken none, document)

abbrev digest_of : Text → Text
digest_of document = document

abbrev double : ℕ → ℕ
double n = n

abbrev ann : Option Session
ann = some (record {
  user = record { id = lit "a"; name = lit "Ann"; method = oidc; email = none; picture = none };
  role = owner;
})

abbrev first_row : Revision
first_row = record {
  id = 1;
  created_at = 5;
  actor = lit "headscale";
  document = lit "old";
  digest = lit "old";
  note = none;
  last_deployed_at = none;
}

abbrev world : World Text
world = record {
  table = record { rows = first_row ∷ []; next_id = 2 };
  trail = [];
  plane = lit "old";
}

world-IsSound : IsSound digest_of world.table
unfolding has
world-IsSound = record {
  rising = (omega arith, omega arith);
  distinct = (refl, tt);
  digested = (refl, tt);
}

run-IsSound_example :
    IsSound digest_of
      (run digest_of double set_policy true
        (save_policy_of 7 ann (lit "new")
          ∷ save_policy_of 8 ann (lit "old")
          ∷ render 9 (lit "new")
          ∷ remove_of ann 1
          ∷ [])
        world).table
run-IsSound_example =
    run-IsSound digest_of double set_policy true
      (save_policy_of 7 ann (lit "new")
        ∷ save_policy_of 8 ann (lit "old")
        ∷ render 9 (lit "new")
        ∷ remove_of ann 1
        ∷ [])
      world world-IsSound

-- The document that was there is stamped, and no row is added.
stamped_again :
    (save_policy digest_of double set_policy false 8 ann (lit "old") world).1.table
    ≡ record { rows = record first_row { last_deployed_at = some 8 } ∷ []; next_id = 2 }
unfolding save_policy trim lit eq_text
stamped_again = refl

save_policy-Outcome_example :
    Outcome digest_of double set_policy true 8 ann
      (lit "old")
      world
      (save_policy digest_of double set_policy true 8 ann (lit "old") world)
save_policy-Outcome_example =
    save_policy-Outcome digest_of double set_policy true 8 ann (lit "old") world world-IsSound
