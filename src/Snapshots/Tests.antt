-- ===== src/Snapshots/Tests.antt =====
-- src/lib/sampler/index.ts: a quarter of an hour with visits.
use headtower.Prelude.{
  ℕ, ◌*◌, ◌≡◌, refl, arith, true, false, Option, none, some, List, [], ◌∷◌, length,
}
use headtower.Snapshots.{
  visit_window, after_write, report, take_sample, record_snapshot_throttled,
  capture_tailnet_snapshot, serve_visits, Call, Visit, Tick, Counts, Table, Reading, Sampler,
  too_soon, latest_snapshot, record_snapshot, sample_tailnet_size,
}
use headtower.Snapshots.Spacing.{Spaced, run, run-Spaced, ticked, visited, Event}
use headtower.Snapshots.Freshness.{Fresh, Steady, sample_tailnet_size-Fresh}

abbrev sampled : Reading
sampled = record { nodes = true ∷ false ∷ []; users = 1 }

abbrev counts : Counts
counts = record { total = 2; online = 1; users = 1 }

abbrev idle : Sampler
idle = record { table = record { rows = []; next_id = 1 }; reported_failure = false; reports = 0 }

abbrev call_at : ℕ → ℕ → Call
call_at check stamp = record { reads = true; writes = true; check = check; stamp = stamp }

abbrev visit_at : ℕ → ℕ → Visit
visit_at check stamp = record { call = call_at check stamp; counts = counts }

abbrev tick_at : ℕ → List Visit → Option Reading → ℕ → ℕ → Tick
tick_at look meanwhile reading check stamp = record {
  configured = true;
  looks = true;
  look = look;
  meanwhile = meanwhile;
  reading = reading;
  call = call_at check stamp;
}

abbrev events : List Event
events =
    ticked (tick_at 0 [] none 1 1)
    ∷ ticked (tick_at 60000 (visit_at 60001 60002 ∷ []) (some sampled) 60003 60004)
    ∷ visited (visit_at 120000 120000)
    ∷ ticked (tick_at 960005 [] (some sampled) 960006 960007)
    ∷ []

two_samples : length (run 15 events idle).table.rows ≡ 2
unfolding run sample_tailnet_size too_soon latest_snapshot serve_visits capture_tailnet_snapshot
    record_snapshot_throttled take_sample report after_write record_snapshot visit_window
two_samples = refl

one_report :
    (run 15
      (ticked (tick_at 0 [] none 1 1) ∷ ticked (tick_at 60000 [] none 60001 60001) ∷ [])
      idle).reports
    ≡ 1
unfolding run sample_tailnet_size too_soon latest_snapshot take_sample report serve_visits
one_report = refl

-- Two writers that both check before either inserts: both pass, and the samples lie a millisecond
-- apart.
abbrev doubled : Table
doubled = record_snapshot 2 counts (record_snapshot 1 counts idle.table)

both_pass : too_soon 0 900000 (latest_snapshot idle.table.rows) ≡ false
unfolding too_soon latest_snapshot
both_pass = refl

two_at_once : length doubled.rows ≡ 2
unfolding record_snapshot
two_at_once = refl

run-Spaced_example : Spaced (15 * 60000) (run 15 events idle).table.rows
run-Spaced_example =
    run-Spaced 15 events idle (omega arith)
      (
        (omega arith, tt),
        ((omega arith, (omega arith, tt)), (omega arith, ((omega arith, tt), tt))),
      )
      tt

abbrev late : Tick
late = tick_at 1000000 (visit_at 1000001 1000001 ∷ []) (some sampled) 1000002 1000003

late_Steady : Steady late.look late.call
late_Steady = record { after = omega arith; forward = omega arith; reads = refl; writes = refl }

sample_tailnet_size-Fresh_example :
    Fresh 1000000 (15 * 60000) (sample_tailnet_size 15 late (run 15 events idle)).1.table.rows
sample_tailnet_size-Fresh_example =
    sample_tailnet_size-Fresh 15 late sampled (run 15 events idle) (omega arith) refl refl refl
      late_Steady
