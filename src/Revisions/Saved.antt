-- ===== src/Revisions/Saved.antt =====
-- `savePolicy` of src/app/(app)/access/actions.ts: a push and its record, or neither.
use headtower.Prelude.{
  ℕ, ◌≡◌, ◌≢◌, ◌⊎◌, refl, inl, inr, Bool, Option, Text, is_empty, trim, Bool-cases,
}
use headtower.Rbac.{acls_write}
use headtower.Authz.{Session, Gate, unauthenticated, denied, granted, authorize}
use headtower.Revisions.Actions.{
  Reply, refused, taken, World, Answer, pushed, admitted, record_push, after_push, save_policy,
}
use headtower.Revisions.Unique.{IsSound}
use headtower.Revisions.Pushes.{Stamped, remember-Stamped}

module _ {S : Type 0} (digest_of : Text → Text) (double : ℕ → ℕ) (set_policy : S → Text → Reply × S)
    (recorded : Bool) where
  -- A push that the control plane took, for a session that may write policies, with its record.
  abbrev pub Recorded : ℕ → Option Session → Text → World S → Answer × World S → Type 0
  Recorded now session document world (answer, world') =
      (who : Session) × (authorize session acls_write ≡ granted who)
      × ((time : Option Text) × (set_policy world.plane document ≡ (taken time, world'.plane))
          × ((id : ℕ) × (answer ≡ pushed time id)
              × Stamped digest_of now document world.table id world'.table))

  -- Nothing recorded: the answer says so, and the tables are as they were.
  abbrev pub Unrecorded : World S → Answer × World S → Type 0
  Unrecorded world (answer, world') =
      ((time : Option Text) (id : ℕ) → answer ≢ pushed time id)
      × (world'.table ≡ world.table)
      × (world'.trail ≡ world.trail)

  abbrev pub Outcome : ℕ → Option Session → Text → World S → Answer × World S → Type 0
  Outcome now session document world o = Recorded now session document world o ⊎ Unrecorded world o

  after_push-Outcome :
      (now : ℕ) (session : Option Session) (who : Session) (document : Text) (world : World S)
      (sent : Reply × S)
      → IsSound digest_of world.table
      → authorize session acls_write ≡ granted who
      → set_policy world.plane document ≡ sent
      → Outcome now session document world
          (after_push digest_of double set_policy recorded now who document world sent)
  unfolding after_push record_push
  after_push-Outcome now session who document world (refused reason, plane) s g e =
      inr ((λ time id f. cc), refl, refl)
  after_push-Outcome now session who document world (taken time, plane) s g e =
      let (result, table, p, h) = remember-Stamped digest_of now who document world.table s in
      rw (p, record_push) (inl (who, g, (time, e, (result.row.id, refl, h))))

  admitted-Outcome :
      (now : ℕ) (session : Option Session) (document : Text) (world : World S) (gate : Gate)
      → IsSound digest_of world.table
      → authorize session acls_write ≡ gate
      → Outcome now session document world (
          admitted digest_of double set_policy recorded
            (λ who.
              after_push digest_of double set_policy recorded now who document world
                (set_policy world.plane document))
            world
            gate)
  unfolding admitted
  admitted-Outcome now session document world unauthenticated s g =
      inr ((λ time id f. cc), refl, refl)
  admitted-Outcome now session document world (denied reason) s g =
      inr ((λ time id f. cc), refl, refl)
  admitted-Outcome now session document world (granted who) s g =
      after_push-Outcome now session who document world (set_policy world.plane document) s g refl

  -- In a sound history, savePolicy does one of two things. Either a session that may write
  -- policies pushed the document, the control plane took it, the answer says so, and the row of
  -- its digest has the answered id and the time of the push while the rows of other digests are
  -- as they were. Or the answer reports no push and the revisions and the audit trail are as they
  -- were.
  pub save_policy-Outcome :
      (now : ℕ) (session : Option Session) (document : Text) (world : World S)
      → IsSound digest_of world.table
      → Outcome now session document world
          (save_policy digest_of double set_policy recorded now session document world)
  unfolding save_policy
  save_policy-Outcome now session document world s = elim (Bool-cases (is_empty (trim document))) [
    | inl e ↦ rw (e, save_policy) (inr ((λ time id f. cc), refl, refl))
    | inr e ↦
        rw (e, save_policy)
          (admitted-Outcome now session document world (authorize session acls_write) s refl)
  ]
