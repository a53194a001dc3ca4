-- ===== src/Revisions/Actions.antt =====
-- src/app/(app)/access/actions.ts (`savePolicy`) and src/app/(app)/access/history-actions.ts.
use headtower.Prelude.{
  ℕ, Bool, true, false, not, Option, none, some, List, Text, lit, length, is_empty, trim, show,
  if◌then◌else◌,
}
use headtower.Json.{Json, null, obj, str, bool, num, field, end}
use headtower.Rbac.{acls_write}
use headtower.Authz.{
  Session, AuditEntry, Gate, unauthenticated, denied, granted, authorize, audit, actor_label,
}
use headtower.Revisions.{
  Revision, Table, Remember, Remembered, get_revision, mark_deployed, update_note, delete_revision,
  remember_revision,
}

-- What `policy.set` gives: the new time of the policy where there is one, or the error as
-- `describeHeadscaleError` words it.
pub data Reply : Type 0 where
  refused : Text → Reply
  taken : Option Text → Reply

-- The tables and the control plane in a state `S`.
pub record World (S : Type 0) : Type 0 where
  pub table : Table
  pub trail : List AuditEntry
  pub plane : S

-- `SavePolicyState` and `RevisionActionState`, with the errors that are thrown.
pub data Answer : Type 0 where
  thrown : Answer
  error : Text → Answer
  pushed : Option Text → ℕ → Answer
  kept : ℕ → Bool → Answer
  success : ℕ → Answer

-- An audit entry about a policy
unfoldable pub policy_entry : Text → ℕ → Option Text → Option Json → Text → AuditEntry
policy_entry action id name detail actor = record {
  actor = actor;
  action = action;
  target_type = some (lit "policy");
  target_id = some (show id);
  target_name = name;
  detail = detail;
}

abbrev pub time_json : Option Text → Json
time_json none = null
time_json (some time) = str time

-- What the two saving actions remember.
abbrev pub pushed_by : ℕ → Session → Text → Remember
pushed_by now who document = record {
  document = document;
  actor = actor_label who;
  note = none;
  deployed_at = some now;
}

abbrev pub kept_by : Session → Text → Option Text → Remember
kept_by who document note = record {
  document = document;
  actor = actor_label who;
  note = note;
  deployed_at = none;
}

-- What the actions take from outside: the digest, the double of a number, the replacement of the
-- policy, and whether the store takes an audit entry.
module _ {S : Type 0} (digest_of : Text → Text) (double : ℕ → ℕ) (set_policy : S → Text → Reply × S)
    (recorded : Bool) where
  unfoldable pub admitted : (Session → Answer × World S) → World S → Gate → Answer × World S
  admitted act world unauthenticated = (thrown, world)
  admitted act world (denied reason) = (error reason, world)
  admitted act world (granted who) = act who

  unfoldable pub save_detail : Text → Option Text → Remembered → Json
  save_detail document time result = obj (
      field (lit "bytes") (num (double (length document))) (
        field (lit "updatedAt") (time_json time) (
          field (lit "digest") (str result.row.digest)
            (field (lit "revisionCreated") (bool result.created) end))))

  -- The end of `savePolicy`, after the push.
  unfoldable pub record_push :
      Session → Text → Option Text → World S → Option Remembered × Table → Answer × World S
  unfolding audit policy_entry save_detail
  record_push who document time world (none, table) = (thrown, record world { table = table })
  record_push who document time world (some result, table) = (
    pushed time result.row.id,
    record world {
      table = table;
      trail =
          audit recorded
            (policy_entry (lit "acl.save") result.row.id none
              (some (save_detail document time result)))
            who world.trail;
    },
  )

  unfoldable pub after_push : ℕ → Session → Text → World S → Reply × S → Answer × World S
  unfolding record_push remember_revision actor_label
  after_push now who document world (refused reason, plane) =
      (error reason, record world { plane = plane })
  after_push now who document world (taken time, plane) =
      record_push who document time (record world { plane = plane })
        (remember_revision digest_of now (pushed_by now who document) world.table)

  -- `savePolicy`, by the time at its end
  unfoldable pub save_policy : ℕ → Option Session → Text → World S → Answer × World S
  unfolding authorize admitted after_push
  save_policy now session document world =
      if is_empty (trim document)
      then (error (lit "The policy document is empty."), world)
      else admitted (λ who. after_push now who document world (set_policy world.plane document))
          world (authorize session acls_write)

  unfoldable pub keep_revision :
      Session → Text → World S → Option Remembered × Table → Answer × World S
  unfolding audit policy_entry
  keep_revision who document world (none, table) = (thrown, record world { table = table })
  keep_revision who document world (some result, table) = (
    kept result.row.id (not result.created),
    record world {
      table = table;
      trail =
          audit recorded
            (policy_entry (lit "acl.revision.save") result.row.id result.row.note (
              some (
                obj (
                  field (lit "bytes") (num (double (length document))) (
                    field (lit "digest") (str result.row.digest)
                      (field (lit "created") (bool result.created) end))))))
            who world.trail;
    },
  )

  -- `saveRevision`
  unfoldable pub save_revision :
      ℕ → Option Session → Text → Option Text → World S → Answer × World S
  unfolding authorize admitted keep_revision remember_revision actor_label
  save_revision now session document note world =
      if is_empty (trim document)
      then (error (lit "The policy document is empty."), world)
      else admitted
          (λ who.
            keep_revision who document world
              (remember_revision digest_of now (kept_by who document note) world.table))
          world (authorize session acls_write)

  abbrev pub gone : Text
  gone = lit "That revision no longer exists."

  unfoldable pub after_deploy : ℕ → Session → Revision → World S → Reply × S → Answer × World S
  unfolding audit policy_entry mark_deployed
  after_deploy now who revision world (refused reason, plane) =
      (error reason, record world { plane = plane })
  after_deploy now who revision world (taken time, plane) = (
    pushed time revision.id,
    record {
      table = mark_deployed revision.id now world.table;
      trail =
          audit recorded
            (policy_entry (lit "acl.deploy") revision.id revision.note (
              some (
                obj (
                  field (lit "digest") (str revision.digest) (
                    field (lit "bytes") (num (double (length revision.document)))
                      (field (lit "updatedAt") (time_json time) end))))))
            who world.trail;
      plane = plane;
    },
  )

  unfoldable pub deploy_found : ℕ → Session → World S → Option Revision → Answer × World S
  unfolding after_deploy
  deploy_found now who world none = (error gone, world)
  deploy_found now who world (some revision) =
      after_deploy now who revision world (set_policy world.plane revision.document)

  -- `deployRevision`
  unfoldable pub deploy_revision : ℕ → Option Session → ℕ → World S → Answer × World S
  unfolding authorize admitted deploy_found get_revision
  deploy_revision now session id world =
      admitted (λ who. deploy_found now who world (get_revision id world.table)) world
        (authorize session acls_write)

  unfoldable pub after_rename :
      Session → ℕ → Option Text → World S → Bool × Table → Answer × World S
  unfolding audit policy_entry
  after_rename who id label world (false, table) = (error gone, world)
  after_rename who id label world (true, table) = (
    success id,
    record world {
      table = table;
      trail =
          audit recorded (policy_entry (lit "acl.revision.rename") id label none) who world.trail;
    },
  )

  -- `renameRevision`
  unfoldable pub rename_revision : Option Session → ℕ → Option Text → World S → Answer × World S
  unfolding authorize admitted after_rename update_note
  rename_revision session id note world =
      admitted (λ who. after_rename who id note world (update_note id note world.table)) world
        (authorize session acls_write)

  abbrev pub was_deployed : Option ℕ → Bool
  was_deployed none = false
  was_deployed (some at) = true

  unfoldable pub after_removal : Session → Revision → World S → Bool × Table → Answer × World S
  unfolding audit policy_entry
  after_removal who revision world (false, table) = (error gone, world)
  after_removal who revision world (true, table) = (
    success revision.id,
    record world {
      table = table;
      trail =
          audit recorded
            (policy_entry (lit "acl.revision.delete") revision.id revision.note (
              some (
                obj (
                  field (lit "digest") (str revision.digest) (
                    field (lit "wasDeployed") (bool (was_deployed revision.last_deployed_at))
                      end)))))
            who world.trail;
    },
  )

  unfoldable pub remove_found : Session → World S → Option Revision → Answer × World S
  unfolding after_removal delete_revision
  remove_found who world none = (error gone, world)
  remove_found who world (some revision) =
      after_removal who revision world (delete_revision revision.id world.table)

  -- `removeRevision`
  unfoldable pub remove_revision : Option Session → ℕ → World S → Answer × World S
  unfolding authorize admitted remove_found get_revision
  remove_revision session id world =
      admitted (λ who. remove_found who world (get_revision id world.table)) world
        (authorize session acls_write)
