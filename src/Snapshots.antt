-- ===== src/Snapshots.antt =====
-- src/lib/db/snapshots.ts, src/lib/sampler/index.ts and `captureTailnetSnapshot` of
-- src/app/(app)/dashboard/actions.ts: the samples of the tailnet's size.
pub mod Spacing
pub mod Freshness
pub mod Tests
use headtower.Prelude.{
  ℕ, suc, ◌+◌, ◌*◌, Bool, true, false, not, ◌&&◌, ◌||◌, ◌==◌, ltb, Option, none, some, List, [],
  ◌∷◌, ◌++◌, keep, length, if◌then◌else◌,
}

-- A row of `snapshots`; times are milliseconds.
pub record Snapshot : Type 0 where
  pub id : ℕ
  pub ts : ℕ
  pub total : ℕ
  pub online : ℕ
  pub users : ℕ

-- `SnapshotInput`
pub record Counts : Type 0 where
  pub total : ℕ
  pub online : ℕ
  pub users : ℕ

-- The table in the order of its inserts, with the id that comes next.
pub record Table : Type 0 where
  pub rows : List Snapshot
  pub next_id : ℕ

-- `SNAPSHOT_MIN_INTERVAL_MS`
abbrev pub snapshot_min_interval_ms : ℕ
snapshot_min_interval_ms = 5 * 60 * 1000

-- Whether a row comes before another in the order of time and id.
abbrev pub precedes : Snapshot → Snapshot → Bool
precedes a b = ltb a.ts b.ts || (a.ts == b.ts && ltb a.id b.id)

abbrev pub newer : Snapshot → Option Snapshot → Snapshot
newer a none = a
newer a (some b) = if precedes a b then b else a

-- `latestSnapshot`
unfoldable pub latest_snapshot : List Snapshot → Option Snapshot
latest_snapshot [] = none
latest_snapshot (row ∷ rows) = some (newer row (latest_snapshot rows))

-- `recordSnapshot`, of counts, which are not negative
unfoldable pub record_snapshot : ℕ → Counts → Table → Table
record_snapshot now input table = record {
  rows =
      table.rows
      ++ record {
        id = table.next_id;
        ts = now;
        total = input.total;
        online = input.online;
        users = input.users;
      }
        ∷ [];
  next_id = suc table.next_id;
}

-- `latest && Date.now() - latest.ts < window`
unfoldable pub too_soon : ℕ → ℕ → Option Snapshot → Bool
too_soon now window none = false
too_soon now window (some latest) = ltb now (latest.ts + window)

-- What a write of the throttle does: it throws, it is skipped, or it stores a row.
pub data Written : Type 0 where
  thrown skipped recorded : Written

-- A call of the throttle by itself: whether the store answers its read and takes its row, the clock
-- at its check, and the clock at the stamp of its row.
pub record Call : Type 0 where
  pub reads : Bool
  pub writes : Bool
  pub check : ℕ
  pub stamp : ℕ

-- `recordSnapshotThrottled`, with no other writer between its read and its insert
unfoldable pub record_snapshot_throttled : Call → Counts → ℕ → Table → Written × Table
record_snapshot_throttled call input window table =
    if not call.reads
    then (thrown, table)
    else if too_soon call.check window (latest_snapshot table.rows)
    then (skipped, table)
    else if not call.writes
    then (thrown, table)
    else (recorded, record_snapshot call.stamp input table)

-- What the sampler reads of the control plane: for each node whether it is online, and how many
-- users there are.
pub record Reading : Type 0 where
  pub nodes : List Bool
  pub users : ℕ

-- The sampler's state: the table, whether the last tick reported a failure, and the reports.
pub record Sampler : Type 0 where
  pub table : Table
  pub reported_failure : Bool
  pub reports : ℕ

unfoldable pub counts_of : Reading → Counts
counts_of reading = record {
  total = length reading.nodes;
  online = length (keep (λ online. online) reading.nodes);
  users = reading.users;
}

-- The `catch` of a tick
unfoldable pub report : Sampler → Sampler
report s =
    if s.reported_failure then s else record s { reported_failure = true; reports = suc s.reports }

-- A tick behind its call of the throttle
unfoldable pub after_write : Sampler → Written × Table → Bool × Sampler
after_write s (thrown, table) = (false, report (record s { table = table }))
after_write s (skipped, table) = (false, record s { table = table; reported_failure = false })
after_write s (recorded, table) = (true, record s { table = table; reported_failure = false })

-- The rest of a tick, after its first look at the table; `none` is a request that throws.
unfoldable pub take_sample : Call → ℕ → Option Reading → Sampler → Bool × Sampler
take_sample call window none s = (false, report s)
take_sample call window (some reading) s =
    after_write s (record_snapshot_throttled call (counts_of reading) window s.table)

-- The window of a visit of the dashboard
unfoldable pub visit_window : ℕ → ℕ
visit_window minutes = if ltb 0 minutes then minutes * 60000 else snapshot_min_interval_ms

-- `captureTailnetSnapshot`, without the history that it reads back; an error is dropped.
unfoldable pub capture_tailnet_snapshot : ℕ → Call → Counts → Table → Table
capture_tailnet_snapshot minutes call input table =
    (record_snapshot_throttled call input (visit_window minutes) table).1

-- A visit of the dashboard, and what a tick of the sampler meets: whether a connection is
-- configured, whether the store answers its first look, the clock there, the visits that come in
-- while it asks the control plane, the reading, and its call of the throttle.
pub record Visit : Type 0 where
  pub call : Call
  pub counts : Counts

pub record Tick : Type 0 where
  pub configured : Bool
  pub looks : Bool
  pub look : ℕ
  pub meanwhile : List Visit
  pub reading : Option Reading
  pub call : Call

unfoldable pub serve_visits : ℕ → List Visit → Sampler → Sampler
serve_visits minutes [] s = s
serve_visits minutes (visit ∷ visits) s =
    serve_visits minutes visits
      (record s { table = capture_tailnet_snapshot minutes visit.call visit.counts s.table })

-- `sampleTailnetSize`, by the interval in minutes; whether it recorded.
unfoldable pub sample_tailnet_size : ℕ → Tick → Sampler → Bool × Sampler
sample_tailnet_size minutes tick s =
    if minutes == 0
    then (false, s)
    else if not tick.configured
    then (false, s)
    else if not tick.looks
    then (false, report s)
    else if too_soon tick.look (minutes * 60000) (latest_snapshot s.table.rows)
    then (false, s)
    else take_sample tick.call (minutes * 60000) tick.reading
        (serve_visits minutes tick.meanwhile s)
