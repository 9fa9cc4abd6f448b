-- ===== src/Events/Fanout.antt =====
-- The queues and the snapshots of the event hub: backend/app/events/service.py.
use mathlib.Core.List.{append-nil, append_assoc, map-id, map-map}
use mathlib.Core.Path.{fun_ext}
use fetcharr.Base.{
  ℕ, zero, suc, ◌-◌, ◌∙◌, sym, take, Bool-cases, inl, inr, ◌≤◌, String, ◌≡◌, refl, ap, Bool, false,
  Option, none, some, List, [], ◌∷◌, ◌++◌, map, length, leb, str_eq, eq_iff, All, keep, arith,
  if◌then◌else◌, length-append,
}
use fetcharr.Events.{
  ProgressSnapshot, Event, Queue, EventHub, Call, published, forgotten, entered, exited, taken,
  queue_size, progress_of, drop_progress, offer, publish, snapshot, forget, subscribe, unsubscribe,
  get, take_first, run, run_all, job_progress, job_state,
}

abbrev pub IsBounded : EventHub → Type 0
IsBounded hub = All (λ q. length q.events ≤ queue_size) hub.subscribers

offer-bounded :
    (e : Event) (q : Queue) → length q.events ≤ queue_size → length (offer e q).events ≤ queue_size
unfolding offer
offer-bounded e q h = ground (arith, length-append q.events (e ∷ []))

offer-All :
    (e : Event) (qs : List Queue)
    → All (λ q. length q.events ≤ queue_size) qs
    → All (λ q. length q.events ≤ queue_size) (map (offer e) qs)
offer-All e [] h = tt
offer-All e (q ∷ qs) (h, hs) = (offer-bounded e q h, offer-All e qs hs)

keep-All :
    (p : Queue → Bool) (qs : List Queue)
    → All (λ q. length q.events ≤ queue_size) qs
    → All (λ q. length q.events ≤ queue_size) (keep p qs)
keep-All p [] h = tt
keep-All p (q ∷ qs) (h, hs) = ground (arith, keep-All p qs hs)

take_first-All :
    (key : ℕ) (qs : List Queue)
    → All (λ q. length q.events ≤ queue_size) qs
    → All (λ q. length q.events ≤ queue_size) (take_first key qs).1
unfolding take_first
take_first-All key [] h = tt
take_first-All key (q ∷ qs) (h, hs) = ground (arith, take_first-All key qs hs)

run-IsBounded : (call : Call) (hub : EventHub) → IsBounded hub → IsBounded (run call hub)
unfolding run publish forget subscribe unsubscribe get
run-IsBounded (published e) hub h = offer-All e hub.subscribers h
run-IsBounded (forgotten job) hub h = h
run-IsBounded (entered key) hub h = (omega arith, h)
run-IsBounded (exited key) hub h = keep-All _ hub.subscribers h
run-IsBounded (taken key) hub h = take_first-All key hub.subscribers h

-- Whatever is called on a bounded hub, in any order, no queue ever holds more than `queue_size` events.
pub run_all-IsBounded :
    (calls : List Call) (hub : EventHub) → IsBounded hub → IsBounded (run_all calls hub)
unfolding run_all
run_all-IsBounded [] hub h = h
run_all-IsBounded (call ∷ calls) hub h =
    run_all-IsBounded calls (run call hub) (run-IsBounded call hub h)

progress_of-drop_progress :
    (job other : String) (progress : List (String × ProgressSnapshot))
    → progress_of other (drop_progress job progress)
      ≡ (if str_eq job other then none else progress_of other progress)
progress_of-drop_progress job other [] = ground arith
progress_of-drop_progress job other ((key, value) ∷ rest) = ground (
  arith,
  eq_iff job other,
  eq_iff key job,
  eq_iff key other,
  progress_of-drop_progress job other rest,
)

-- The snapshot of a job after a call, told from the call and from the snapshot before it.
abbrev pub next_snapshot : Call → String → Option ProgressSnapshot → Option ProgressSnapshot
next_snapshot (published (job_progress job s)) other old = if str_eq job other then some s else old
next_snapshot (forgotten job) other old = if str_eq job other then none else old
next_snapshot _ other old = old

-- After any one call the snapshot of any job is the one that the call published for that job, nothing
-- where the call forgot the job, and what it was before otherwise.
pub snapshot-run :
    (call : Call) (other : String) (hub : EventHub)
    → snapshot other (run call hub) ≡ next_snapshot call other (snapshot other hub)
unfolding snapshot run publish forget subscribe unsubscribe get
snapshot-run (published (job_progress job s)) other hub =
    ground (arith, progress_of-drop_progress job other hub.progress)
snapshot-run (forgotten job) other hub = progress_of-drop_progress job other hub.progress
snapshot-run (published (job_state a b c d)) other hub = refl
snapshot-run _ other hub = refl

offer_all : List Event → Queue → Queue
offer_all [] q = q
offer_all (e ∷ es) q = offer_all es (offer e q)

-- What a queue of the hub has room for, in order.
abbrev pub room : List Event → ℕ
room held = queue_size - length held

abbrev pub received : List Event → Queue → Queue
received es q = record q { events = q.events ++ take (room q.events) es }

take-room :
    (held es : List Event) (e : Event)
    → leb queue_size (length held) ≡ false
    → (held ++ e ∷ []) ++ take (room (held ++ e ∷ [])) es ≡ held ++ take (room held) (e ∷ es)
take-room held es e h =
    let one : room held ≡ suc (room (held ++ e ∷ [])) =
      ground (arith, length-append held (e ∷ [])) in
    rw (one, append_assoc)

take-nil : (n : ℕ) → take {A = Event} n [] ≡ []
take-nil zero = refl
take-nil (suc n) = refl

offer_all-received : (es : List Event) (q : Queue) → offer_all es q ≡ received es q
unfolding offer_all
offer_all-received [] q = λ i. record q { events = nothing i }
  where
    nothing : q.events ≡ q.events ++ take (room q.events) []
    nothing = rw take-nil (sym (append-nil q.events))
offer_all-received (e ∷ es) q = elim (Bool-cases (leb queue_size (length q.events))) [
  | inl full ↦ offer_all-received es (offer e q) ∙ unfold offer in ground (arith, full)
  | inr free ↦
      offer_all-received es (offer e q)
      ∙ unfold offer in rw free (λ i. record q { events = take-room q.events es e free i })
]

run_all-offer_all :
    (es : List Event) (hub : EventHub)
    → (run_all (map published es) hub).subscribers ≡ map (offer_all es) hub.subscribers
unfolding run_all run publish offer_all
run_all-offer_all [] hub = sym (map-id hub.subscribers)
run_all-offer_all (e ∷ es) hub =
    run_all-offer_all es (run (published e) hub) ∙ map-map (offer_all es) (offer e) hub.subscribers

-- Events that are published one after the other reach every subscriber in that order, up to the room
-- that its queue had; what does not fit is lost to that subscriber alone, and to no other.
pub run_all-received :
    (es : List Event) (hub : EventHub)
    → (run_all (map published es) hub).subscribers ≡ map (received es) hub.subscribers
run_all-received es hub =
    run_all-offer_all es hub ∙ ap (λ f. map f hub.subscribers) (fun_ext (offer_all-received es))
