-- ===== src/Snapshots/Freshness.antt =====
-- src/lib/sampler/index.ts: a tick that reaches the control plane leaves a recent sample.
use headtower.Prelude.{
  ℕ, ◌+◌, ◌*◌, ◌≤◌, ◌<◌, ◌≡◌, refl, inl, inr, arith, true, false, ◌==◌, some, List, [], ◌∷◌, ◌++◌,
  Bool-cases, Option-cases,
}
use headtower.Snapshots.{
  Call, Tick, Written, thrown, skipped, recorded, after_write, report, serve_visits, Snapshot,
  Counts, Table, newer, latest_snapshot, record_snapshot, too_soon, record_snapshot_throttled,
  Reading, Sampler, take_sample, sample_tailnet_size, counts_of,
}

-- The newest sample is younger than a window at a time.
abbrev pub Fresh : ℕ → ℕ → List Snapshot → Type 0
Fresh now window rows = (x : Snapshot) × (latest_snapshot rows ≡ some x) × (now < x.ts + window)

latest-append :
    (rows : List Snapshot) (row : Snapshot)
    → (x : Snapshot) × (latest_snapshot (rows ++ row ∷ []) ≡ some x) × (row.ts ≤ x.ts)
unfolding latest_snapshot
latest-append [] row = (row, refl, omega arith)
latest-append (first ∷ rows) row =
    let (x, e, h) = latest-append rows row in
    (newer first (some x), rw e refl, newer_le first x row.ts h)
  where
    newer_le : (a b : Snapshot) (t : ℕ) → t ≤ b.ts → t ≤ (newer a (some b)).ts
    newer_le a b t h = ground (arith, h)

too_soon-Fresh :
    (now window : ℕ) (rows : List Snapshot)
    → too_soon now window (latest_snapshot rows) ≡ true
    → Fresh now window rows
unfolding too_soon
too_soon-Fresh now window rows e = elim (Option-cases (latest_snapshot rows)) [
  | inl f ↦ absurd (ground (arith, e, f))
  | inr (x, f) ↦ (x, f, ground (arith, e, f))
]

Fresh-earlier :
    (look now window : ℕ) (rows : List Snapshot)
    → look ≤ now
    → Fresh now window rows
    → Fresh look window rows
Fresh-earlier look now window rows h (x, e, f) = (x, e, omega arith)

-- The clock is not set back within a call, and the store takes what the call does.
pub record Steady (look : ℕ) (call : Call) : Type 0 where
  pub after : look ≤ call.check
  pub forward : call.check ≤ call.stamp
  pub reads : call.reads ≡ true
  pub writes : call.writes ≡ true

-- The table of a tick is the one that its write leaves.
pub after_write-table : (s : Sampler) (w : Written × Table) → (after_write s w).1.table ≡ w.1
unfolding after_write report
after_write-table s (thrown, table) = elim (Bool-cases s.reported_failure) [
  | inl e ↦ rw e refl
  | inr e ↦ rw e refl
]
after_write-table s (skipped, table) = refl
after_write-table s (recorded, table) = refl

record_snapshot_throttled-Fresh :
    (look : ℕ) (call : Call) (input : Counts) (window : ℕ) (table : Table)
    → 0 < window
    → Steady look call
    → Fresh look window (record_snapshot_throttled call input window table).1.rows
unfolding record_snapshot_throttled record_snapshot
record_snapshot_throttled-Fresh look call input window table p steady =
    let after = steady.after in
    let forward = steady.forward in
    elim (Bool-cases (too_soon call.check window (latest_snapshot table.rows))) [
      | inl e ↦
          rw (steady.reads, e)
            (Fresh-earlier look call.check window table.rows after
              (too_soon-Fresh call.check window table.rows e))
      | inr e ↦
          let (x, f, h) = latest-append table.rows (record {
            id = table.next_id;
            ts = call.stamp;
            total = input.total;
            online = input.online;
            users = input.users;
          }) in
          rw (steady.reads, e, steady.writes) (x, f, omega arith)
    ]

take_sample-Fresh :
    (look : ℕ) (call : Call) (window : ℕ) (reading : Reading) (s : Sampler)
    → 0 < window
    → Steady look call
    → Fresh look window (take_sample call window (some reading) s).1.table.rows
unfolding take_sample
take_sample-Fresh look call window reading s p steady =
    let w = record_snapshot_throttled call (counts_of reading) window s.table in
    rw (after_write-table s w)
      (record_snapshot_throttled-Fresh look call (counts_of reading) window s.table p steady)

-- After a tick with a positive interval and a configured connection, in which the control plane
-- answers, the store answers the two reads and takes the row, the clock is not set back, and no
-- other writer comes between the check and the insert of its write, there is a sample, and the
-- newest one is less than the interval older than the start of the tick.
pub sample_tailnet_size-Fresh :
    (minutes : ℕ) (tick : Tick) (reading : Reading) (s : Sampler)
    → 0 < minutes
    → tick.configured ≡ true
    → tick.looks ≡ true
    → tick.reading ≡ some reading
    → Steady tick.look tick.call
    → Fresh tick.look (minutes * 60000) (sample_tailnet_size minutes tick s).1.table.rows
unfolding sample_tailnet_size
sample_tailnet_size-Fresh minutes tick reading s p configured looks answered steady =
    let positive : (minutes == 0) ≡ false = ground (arith, p) in
    elim (Bool-cases (too_soon tick.look (minutes * 60000) (latest_snapshot s.table.rows))) [
      | inl c ↦
          rw (positive, configured, looks, c)
            (too_soon-Fresh tick.look (minutes * 60000) s.table.rows c)
      | inr c ↦
          rw (positive, configured, looks, c, answered)
            (take_sample-Fresh tick.look tick.call (minutes * 60000) reading
              (serve_visits minutes tick.meanwhile s) (omega arith) steady)
    ]
