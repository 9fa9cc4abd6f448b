-- ===== src/Events.antt =====
-- backend/app/events/service.py and schemas.py: the progress snapshots and the fan-out of events
-- to one bounded queue for each connected browser. A subscriber's queue is told by a number.
-- Rates and percentages, floats in the source, are natural numbers in a unit of the caller's.
pub mod Fanout
mod Tests
use fetcharr.Base.{
  ℕ, ◌+◌, String, Option, none, some, List, [], ◌∷◌, ◌++◌, map, length, leb, str_eq, ◌==◌, keep,
  not, if◌then◌else◌,
}
use fetcharr.Jobs.Status.{JobStatus, Step, ImportStatus}

pub record ProgressSnapshot : Type 0 where
  pub progress_pct : Option ℕ
  pub downloaded_bytes : Option ℕ
  pub total_bytes : Option ℕ
  pub speed_bps : Option ℕ
  pub eta_s : Option ℕ

-- An event, its `type` the constructor and its `data` the fields.
pub data Event : Type 0 where
  job_progress : String → ProgressSnapshot → Event
  job_state : String → JobStatus → Option Step → Option String → Event
  job_import : String → ImportStatus → Option String → Event
  job_log : String → List String → Event
  request_summary : String → (total done broken : ℕ) → Event

abbrev pub queue_size : ℕ
queue_size = 1000

pub record Queue : Type 0 where
  pub key : ℕ
  pub events : List Event

pub record EventHub : Type 0 where
  pub progress : List (String × ProgressSnapshot)
  pub subscribers : List Queue

unfoldable pub new_hub : EventHub
new_hub = record { progress = []; subscribers = [] }

abbrev pub progress_of : String → List (String × ProgressSnapshot) → Option ProgressSnapshot
progress_of job [] = none
progress_of job ((key, value) ∷ rest) =
    let later = progress_of job rest in if str_eq key job then some value else later

abbrev pub drop_progress :
    String → List (String × ProgressSnapshot) → List (String × ProgressSnapshot)
drop_progress job [] = []
drop_progress job ((key, value) ∷ rest) =
    let later = drop_progress job rest in if str_eq key job then later else (key, value) ∷ later

-- `if not queue.full(): queue.put_nowait(event)`
unfoldable pub offer : Event → Queue → Queue
offer event q =
    if leb queue_size (length q.events) then q else record q { events = q.events ++ event ∷ [] }

record_progress : Event → List (String × ProgressSnapshot) → List (String × ProgressSnapshot)
record_progress (job_progress job s) progress = (job, s) ∷ drop_progress job progress
record_progress _ progress = progress

unfoldable pub publish : Event → EventHub → EventHub
unfolding record_progress
publish event hub = record {
  progress = record_progress event hub.progress;
  subscribers = map (offer event) hub.subscribers;
}

unfoldable pub snapshot : String → EventHub → Option ProgressSnapshot
snapshot job hub = progress_of job hub.progress

unfoldable pub forget : String → EventHub → EventHub
forget job hub = record hub { progress = drop_progress job hub.progress }

-- `subscribe`: on entry a new queue is added, on exit it is discarded
unfoldable pub subscribe : ℕ → EventHub → EventHub
subscribe key hub = record hub { subscribers = record { key = key; events = [] } ∷ hub.subscribers }

unfoldable pub unsubscribe : ℕ → EventHub → EventHub
unsubscribe key hub = record hub { subscribers = keep (λ q. not (q.key == key)) hub.subscribers }

-- `queue.get()` of one subscriber, in backend/app/events/router.py; it waits where the queue is empty
take_first : ℕ → List Queue → Option Event × List Queue
take_first key [] = (none, [])
take_first key (q ∷ rest) =
    let (found, others) = take_first key rest in
    if q.key == key
    then elim q.events [
      | [] ↦ (none, q ∷ rest)
      | e ∷ more ↦ (some e, record q { events = more } ∷ rest)
    ]
    else (found, q ∷ others)

unfoldable pub get : ℕ → EventHub → Option Event × EventHub
unfolding take_first
get key hub =
    let (found, queues) = take_first key hub.subscribers in
    (found, record hub { subscribers = queues })

-- One call on the hub.
pub data Call : Type 0 where
  published : Event → Call
  forgotten : String → Call
  entered exited taken : ℕ → Call

unfoldable pub run : Call → EventHub → EventHub
run (published e) hub = publish e hub
run (forgotten job) hub = forget job hub
run (entered key) hub = subscribe key hub
run (exited key) hub = unsubscribe key hub
run (taken key) hub = (get key hub).1

unfoldable pub run_all : List Call → EventHub → EventHub
run_all [] hub = hub
run_all (call ∷ calls) hub = run_all calls (run call hub)
