-- ===== src/Tests/Collector.antt =====
-- Runs of `run_once` of services/scheduler.py.
use megaraid_dashboard.Prelude.{◌≡◌, refl, none, some, List, []}
use megaraid_dashboard.Services.Events.{DetectedEvent}
use megaraid_dashboard.Services.Collector.{Collector, run_once}
use megaraid_dashboard.Services.Collector.Quiet.{reported, run_once_quiet}
use megaraid_dashboard.Tests.Detector.{broken, detector, config-IsConfigured}

abbrev fresh : Collector
fresh = record { latest = none; temp_states = λ k. none; detector = detector }

run_once_quiet_example :
    (events : List DetectedEvent) × (c' : Collector) × (run_once broken fresh ≡ some (events, c'))
    × (reported (run_once broken c') ≡ some [])
run_once_quiet_example =
    run_once_quiet broken fresh config-IsConfigured ((refl, tt), (tt, tt)) ((refl, tt), (tt, tt))
