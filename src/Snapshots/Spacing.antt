-- ===== src/Snapshots/Spacing.antt =====
-- src/lib/sampler/index.ts and src/lib/db/snapshots.ts: ticks and visits share one window.
use headtower.Prelude.{
  ℕ, subst, sym, ◌+◌, ◌*◌, ◌≤◌, ◌<◌, ◌≡◌, refl, inl, inr, arith, All, false, ◌==◌, Option, none,
  some, List, [], ◌∷◌, ◌++◌, Bool-cases,
}
use headtower.Snapshots.Freshness.{after_write-table}
use headtower.Snapshots.{
  Call, Visit, Tick, serve_visits, Snapshot, Counts, Table, newer, latest_snapshot, record_snapshot,
  too_soon, record_snapshot_throttled, Reading, Sampler, report, take_sample, sample_tailnet_size,
  visit_window, capture_tailnet_snapshot, counts_of,
}

-- Each sample is at least a window after the one before, and the ids ascend.
abbrev pub Spaced : ℕ → List Snapshot → Type 0
Spaced window [] = Unit
Spaced window (a ∷ []) = Unit
Spaced window (a ∷ b ∷ rows) = (a.ts + window ≤ b.ts) × Spaced window (b ∷ rows)

-- A sample after every other.
abbrev pub After : ℕ → List Snapshot → ℕ → Type 0
After window [] now = Unit
After window (a ∷ []) now = a.ts + window ≤ now
After window (a ∷ b ∷ rows) now = After window (b ∷ rows) now

Spaced-add :
    (window : ℕ) (rows : List Snapshot) (row : Snapshot)
    → Spaced window rows
    → After window rows row.ts
    → Spaced window (rows ++ row ∷ [])
Spaced-add window [] row s h = tt
Spaced-add window (a ∷ []) row s h = (h, tt)
Spaced-add window (a ∷ b ∷ rows) row (k, s) h = (k, Spaced-add window (b ∷ rows) row s h)

latest-some :
    (row : Snapshot) (rows : List Snapshot)
    → (x : Snapshot) × (latest_snapshot (row ∷ rows) ≡ some x)
unfolding latest_snapshot
latest-some row rows = (newer row (latest_snapshot rows), refl)

-- The latest sample is no earlier than the last one.
too_soon-After :
    (now window : ℕ) (rows : List Snapshot)
    → too_soon now window (latest_snapshot rows) ≡ false
    → After window rows now
unfolding too_soon latest_snapshot
too_soon-After now window [] e = tt
too_soon-After now window (a ∷ []) e = ground (arith, e)
too_soon-After now window (a ∷ b ∷ rows) e =
    too_soon-After now window (b ∷ rows) (ground (arith, e))

After-later :
    (window : ℕ) (rows : List Snapshot) (check stamp : ℕ)
    → check ≤ stamp
    → After window rows check
    → After window rows stamp
After-later window [] check stamp h a = tt
After-later window (a ∷ []) check stamp h k = omega arith
After-later window (a ∷ b ∷ rows) check stamp h k = After-later window (b ∷ rows) check stamp h k

-- The clock is not set back between the check of a call and the stamp of its row.
abbrev pub Forward : Call → Type 0
Forward call = call.check ≤ call.stamp

record_snapshot_throttled-Spaced :
    (call : Call) (input : Counts) (window : ℕ) (table : Table)
    → Forward call
    → Spaced window table.rows
    → Spaced window (record_snapshot_throttled call input window table).1.rows
unfolding record_snapshot_throttled record_snapshot
record_snapshot_throttled-Spaced call input window table f s = elim (Bool-cases call.reads) [
  | inr a ↦ rw a s
  | inl a ↦ elim (Bool-cases (too_soon call.check window (latest_snapshot table.rows))) [
    | inl b ↦ rw (a, b) s
    | inr b ↦ elim (Bool-cases call.writes) [
      | inr c ↦ rw (a, b, c) s
      | inl c ↦
          let later =
            After-later window table.rows call.check call.stamp f
              (too_soon-After call.check window table.rows b) in
          rw (a, b, c) (Spaced-add window table.rows _ s later)
    ]
  ]
]

report-table : (s : Sampler) → (report s).table ≡ s.table
unfolding report
report-table s = elim (Bool-cases s.reported_failure) [ inl e ↦ rw e refl | inr e ↦ rw e refl ]

take_sample-Spaced :
    (call : Call) (window : ℕ) (reading : Option Reading) (s : Sampler)
    → Forward call
    → Spaced window s.table.rows
    → Spaced window (take_sample call window reading s).1.table.rows
unfolding take_sample
take_sample-Spaced call window none s f h = rw (report-table s) h
take_sample-Spaced call window (some reading) s f h =
    rw (after_write-table s (record_snapshot_throttled call (counts_of reading) window s.table))
      (record_snapshot_throttled-Spaced call (counts_of reading) window s.table f h)

visit_window-set : (minutes : ℕ) → 0 < minutes → visit_window minutes ≡ minutes * 60000
unfolding visit_window
visit_window-set minutes h = ground (arith, h)

serve_visits-Spaced :
    (minutes : ℕ) (visits : List Visit) (s : Sampler)
    → 0 < minutes
    → All (λ v. Forward v.call) visits
    → Spaced (minutes * 60000) s.table.rows
    → Spaced (minutes * 60000) (serve_visits minutes visits s).table.rows
unfolding serve_visits capture_tailnet_snapshot
serve_visits-Spaced minutes [] s p f h = h
serve_visits-Spaced minutes (v ∷ visits) s p (f, fs) h =
    serve_visits-Spaced minutes visits
      (record s { table = capture_tailnet_snapshot minutes v.call v.counts s.table }) p fs
      (subst
        (λ window.
          Spaced (minutes * 60000)
            (record_snapshot_throttled v.call v.counts window s.table).1.rows)
        (sym (visit_window-set minutes p))
        (record_snapshot_throttled-Spaced v.call v.counts (minutes * 60000) s.table f h))

-- A tick of the sampler or a visit of the dashboard
pub data Event : Type 0 where
  ticked : Tick → Event
  visited : Visit → Event

abbrev pub Orderly : Event → Type 0
Orderly (ticked tick) = Forward tick.call × All (λ v. Forward v.call) tick.meanwhile
Orderly (visited v) = Forward v.call

sample_tailnet_size-Spaced :
    (minutes : ℕ) (tick : Tick) (s : Sampler)
    → 0 < minutes
    → Orderly (ticked tick)
    → Spaced (minutes * 60000) s.table.rows
    → Spaced (minutes * 60000) (sample_tailnet_size minutes tick s).1.table.rows
unfolding sample_tailnet_size
sample_tailnet_size-Spaced minutes tick s p (f, fs) h =
    let positive : (minutes == 0) ≡ false = ground (arith, p) in
    elim (Bool-cases tick.configured) [
      | inr a ↦ rw (positive, a) h
      | inl a ↦ elim (Bool-cases tick.looks) [
        | inr b ↦ rw (positive, a, b, report-table s) h
        | inl b ↦
            elim (Bool-cases
              (too_soon tick.look (minutes * 60000) (latest_snapshot s.table.rows))) [
                | inl c ↦ rw (positive, a, b, c) h
                | inr c ↦
                    rw (positive, a, b, c)
                      (take_sample-Spaced tick.call (minutes * 60000) tick.reading
                        (serve_visits minutes tick.meanwhile s) f
                        (serve_visits-Spaced minutes tick.meanwhile s p fs h))
              ]
      ]
    ]

unfoldable pub serve : ℕ → Event → Sampler → Sampler
serve minutes (ticked tick) s = (sample_tailnet_size minutes tick s).1
serve minutes (visited v) s = serve_visits minutes (v ∷ []) s

unfoldable pub run : ℕ → List Event → Sampler → Sampler
unfolding serve
run minutes [] s = s
run minutes (event ∷ events) s = run minutes events (serve minutes event s)

serve-Spaced :
    (minutes : ℕ) (event : Event) (s : Sampler)
    → 0 < minutes
    → Orderly event
    → Spaced (minutes * 60000) s.table.rows
    → Spaced (minutes * 60000) (serve minutes event s).table.rows
unfolding serve
serve-Spaced minutes (ticked tick) s p f h = sample_tailnet_size-Spaced minutes tick s p f h
serve-Spaced minutes (visited v) s p f h = serve_visits-Spaced minutes (v ∷ []) s p (f, tt) h

-- With a positive interval, any sequence of ticks of the sampler and visits of the dashboard
-- keeps every sample at least the interval after the one before, whatever the control plane and
-- the store refuse and whatever the clock does between the calls of the throttle. This is where
-- no call of the throttle overlaps another, and the clock is not set back between the check of a
-- call and the stamp of its row; visits may come in while a tick asks the control plane.
pub run-Spaced :
    (minutes : ℕ) (events : List Event) (s : Sampler)
    → 0 < minutes
    → All Orderly events
    → Spaced (minutes * 60000) s.table.rows
    → Spaced (minutes * 60000) (run minutes events s).table.rows
unfolding run
run-Spaced minutes [] s p f h = h
run-Spaced minutes (event ∷ events) s p (f, fs) h =
    run-Spaced minutes events (serve minutes event s) p fs (serve-Spaced minutes event s p f h)
