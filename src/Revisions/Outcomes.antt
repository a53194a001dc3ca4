-- ===== src/Revisions/Outcomes.antt =====
-- src/app/(app)/access/actions.ts and src/app/(app)/access/history-actions.ts: what the actions do to
-- the history.
use headtower.Prelude.{
  ℕ, inl, inr, Bool, true, false, Option, none, some, List, [], ◌∷◌, Text, is_empty, trim,
  Bool-cases,
}
use headtower.Rbac.{acls_write}
use headtower.Authz.{Session, Gate, unauthenticated, denied, granted, authorize}
use headtower.Revisions.{Revision, Table, Remembered, get_revision, capture}
use headtower.Revisions.Actions.{
  Reply, refused, taken, World, Answer, admitted, record_push, after_push, save_policy,
  keep_revision, save_revision, after_deploy, deploy_found, deploy_revision, after_rename,
  rename_revision, after_removal, remove_found, remove_revision, pushed_by, kept_by,
}
use headtower.Revisions.Unique.{IsSound}
use headtower.Revisions.Store.{
  mark_deployed-IsSound, update_note-IsSound, delete_revision-IsSound, remember_revision-IsSound,
  capture-IsSound,
}

-- A call of an action, or a render of the page with the running document.
pub data Request : Type 0 where
  save_policy_of : ℕ → Option Session → Text → Request
  save_revision_of : ℕ → Option Session → Text → Option Text → Request
  deploy_of : ℕ → Option Session → ℕ → Request
  rename_of : Option Session → ℕ → Option Text → Request
  remove_of : Option Session → ℕ → Request
  render : ℕ → Text → Request

module _ {S : Type 0} (digest_of : Text → Text) (double : ℕ → ℕ) (set_policy : S → Text → Reply × S)
    (recorded : Bool) where
  unfoldable pub serve : Request → World S → World S
  serve (save_policy_of now who document) world =
      (save_policy digest_of double set_policy recorded now who document world).1
  serve (save_revision_of now who document label) world =
      (save_revision digest_of double set_policy recorded now who document label world).1
  serve (deploy_of now who id) world =
      (deploy_revision digest_of double set_policy recorded now who id world).1
  serve (rename_of who id label) world =
      (rename_revision digest_of double set_policy recorded who id label world).1
  serve (remove_of who id) world =
      (remove_revision digest_of double set_policy recorded who id world).1
  serve (render now document) world = record world {
    table = capture digest_of now document world.table;
  }

  unfoldable pub run : List Request → World S → World S
  unfolding serve
  run [] world = world
  run (request ∷ requests) world = run requests (serve request world)

  abbrev Sound : World S → Type 0
  Sound world = IsSound digest_of world.table

  admitted-Sound :
      (act : Session → Answer × World S) (world : World S) (gate : Gate)
      → Sound world
      → ((who : Session) → Sound (act who).1)
      → Sound (admitted digest_of double set_policy recorded act world gate).1
  unfolding admitted
  admitted-Sound act world unauthenticated s h = s
  admitted-Sound act world (denied reason) s h = s
  admitted-Sound act world (granted who) s h = h who

  record_push-Sound :
      (who : Session) (document : Text) (time : Option Text) (world : World S)
      (r : Option Remembered × Table)
      → IsSound digest_of r.1
      → Sound (record_push digest_of double set_policy recorded who document time world r).1
  unfolding record_push
  record_push-Sound who document time world (none, table) s = s
  record_push-Sound who document time world (some result, table) s = s

  after_push-Sound :
      (now : ℕ) (who : Session) (document : Text) (world : World S) (r : Reply × S)
      → Sound world
      → Sound (after_push digest_of double set_policy recorded now who document world r).1
  unfolding after_push
  after_push-Sound now who document world (refused reason, plane) s = s
  after_push-Sound now who document world (taken time, plane) s =
      record_push-Sound who document time (record world { plane = plane }) _
        (remember_revision-IsSound digest_of now (pushed_by now who document) world.table s)

  keep_revision-Sound :
      (who : Session) (document : Text) (world : World S) (r : Option Remembered × Table)
      → IsSound digest_of r.1
      → Sound (keep_revision digest_of double set_policy recorded who document world r).1
  unfolding keep_revision
  keep_revision-Sound who document world (none, table) s = s
  keep_revision-Sound who document world (some result, table) s = s

  deploy_found-Sound :
      (now : ℕ) (who : Session) (world : World S) (found : Option Revision)
      → Sound world
      → Sound (deploy_found digest_of double set_policy recorded now who world found).1
  unfolding deploy_found
  deploy_found-Sound now who world none s = s
  deploy_found-Sound now who world (some row) s = go (set_policy world.plane row.document)
    where
      go :
          (r : Reply × S)
          → Sound (after_deploy digest_of double set_policy recorded now who row world r).1
      go (refused reason, plane) = s
      go (taken time, plane) = mark_deployed-IsSound digest_of row.id now world.table s

  after_rename-Sound :
      (who : Session) (id : ℕ) (label : Option Text) (world : World S) (r : Bool × Table)
      → Sound world
      → IsSound digest_of r.1
      → Sound (after_rename digest_of double set_policy recorded who id label world r).1
  unfolding after_rename
  after_rename-Sound who id label world (false, table) s t = s
  after_rename-Sound who id label world (true, table) s t = t

  after_removal-Sound :
      (who : Session) (row : Revision) (world : World S) (r : Bool × Table)
      → Sound world
      → IsSound digest_of r.1
      → Sound (after_removal digest_of double set_policy recorded who row world r).1
  unfolding after_removal
  after_removal-Sound who row world (false, table) s t = s
  after_removal-Sound who row world (true, table) s t = t

  remove_found-Sound :
      (who : Session) (world : World S) (found : Option Revision)
      → Sound world
      → Sound (remove_found digest_of double set_policy recorded who world found).1
  unfolding remove_found
  remove_found-Sound who world none s = s
  remove_found-Sound who world (some row) s =
      after_removal-Sound who row world _ s (delete_revision-IsSound digest_of row.id world.table s)

  save_policy-Sound :
      (now : ℕ) (session : Option Session) (document : Text) (world : World S)
      → Sound world
      → Sound (save_policy digest_of double set_policy recorded now session document world).1
  unfolding save_policy
  save_policy-Sound now session document world s = elim (Bool-cases (is_empty (trim document))) [
    | inl e ↦ rw (e, save_policy) s
    | inr e ↦
        rw (e, save_policy)
          (admitted-Sound _ world (authorize session acls_write) s
            (λ who. after_push-Sound now who document world (set_policy world.plane document) s))
  ]

  save_revision-Sound :
      (now : ℕ) (session : Option Session) (document : Text) (label : Option Text) (world : World S)
      → Sound world
      → Sound
          (save_revision digest_of double set_policy recorded now session document label world).1
  unfolding save_revision
  save_revision-Sound now session document label world s =
      elim (Bool-cases (is_empty (trim document))) [
        | inl e ↦ rw (e, save_revision) s
        | inr e ↦
            rw (e, save_revision)
              (admitted-Sound _ world (authorize session acls_write) s (λ who.
                keep_revision-Sound who document world _ (
                  remember_revision-IsSound digest_of now (kept_by who document label) world.table
                    s)))
      ]

  serve-Sound : (request : Request) (world : World S) → Sound world → Sound (serve request world)
  unfolding serve deploy_revision rename_revision remove_revision
  serve-Sound (save_policy_of now session document) world s =
      save_policy-Sound now session document world s
  serve-Sound (save_revision_of now session document label) world s =
      save_revision-Sound now session document label world s
  serve-Sound (deploy_of now session id) world s =
      admitted-Sound _ world (authorize session acls_write) s
        (λ who. deploy_found-Sound now who world (get_revision id world.table) s)
  serve-Sound (rename_of session id label) world s =
      admitted-Sound _ world (authorize session acls_write) s (λ who.
        after_rename-Sound who id label world _ s
          (update_note-IsSound digest_of id label world.table s))
  serve-Sound (remove_of session id) world s =
      admitted-Sound _ world (authorize session acls_write) s
        (λ who. remove_found-Sound who world (get_revision id world.table) s)
  serve-Sound (render now document) world s = capture-IsSound digest_of now document world.table s

  -- Any sequence of calls of the five actions on policies and of renders that capture the running
  -- document keeps the history sound: no id and no digest twice, ids in ascending order below the
  -- next one, and every digest that of its document.
  pub run-IsSound :
      (requests : List Request) (world : World S)
      → IsSound digest_of world.table
      → IsSound digest_of (run requests world).table
  unfolding run
  run-IsSound [] world s = s
  run-IsSound (request ∷ requests) world s =
      run-IsSound requests (serve request world) (serve-Sound request world s)
