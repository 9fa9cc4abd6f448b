-- ===== src/Events/Tests.antt =====
-- The hub run on a few calls, and its properties at them.
use fetcharr.Base.{◌≡◌, none, some, List, [], ◌∷◌, map}
use fetcharr.Jobs.Status.{starting, completed}
use fetcharr.Events.{
  Event, job_state, job_progress, ProgressSnapshot, EventHub, new_hub, Call, published, forgotten,
  entered, exited, taken, run_all,
}
use fetcharr.Events.Fanout.{IsBounded, run_all-IsBounded, received, run_all-received}

abbrev begun : Event
begun = job_state "a" starting none none

abbrev ended : Event
ended = job_state "a" completed none none

abbrev tenth : ProgressSnapshot
tenth = record {
  progress_pct = some 100;
  downloaded_bytes = none;
  total_bytes = none;
  speed_bps = none;
  eta_s = none;
}

abbrev calls : List Call
calls =
    entered 1
    ∷ published begun
    ∷ taken 1
    ∷ published (job_progress "a" tenth)
    ∷ exited 1
    ∷ forgotten "a"
    ∷ []

-- A hub with two subscribers, one of which has an event to read.
abbrev hub : EventHub
hub = record {
  progress = ("a", tenth) ∷ [];
  subscribers = record { key = 1; events = begun ∷ [] } ∷ record { key = 2; events = [] } ∷ [];
}

run_all-IsBounded_example : IsBounded (run_all calls new_hub)
unfolding new_hub
run_all-IsBounded_example = run_all-IsBounded calls new_hub tt

run_all-received_example :
    (run_all (map published (begun ∷ ended ∷ [])) hub).subscribers
    ≡ map (received (begun ∷ ended ∷ [])) hub.subscribers
run_all-received_example = run_all-received (begun ∷ ended ∷ []) hub
