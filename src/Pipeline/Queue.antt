-- ===== src/Pipeline/Queue.antt =====
-- The dispatcher of src/pipeline/inference_pipeline.cpp: one round of its loop under the queue's lock.
-- What other threads do while the round waits for a batch to fill is a parameter.
pub mod Batches
use socrates.Prelude.{
  ℕ, zero, suc, ◌-◌, Bool, true, false, not, Option, none, some, List, [], ◌∷◌, ◌++◌, if◌then◌else◌,
  ltb, length, is_empty, is_some, ◌||◌,
}
use socrates.Pipeline.{ActiveRequest, BatchingConfig, immediate, serial, adaptive, emit_started}
use socrates.Pipeline.Store.{
  Pipeline, QueuedRequest, is_long_context, on_state, assign, find, is_active, request_id,
}

-- The thread that runs the generation is moved into the workers. An entry under the same id is a
-- thread that can still be joined, and assigning to one ends the process.
unfoldable pub launch_worker : ℕ → Pipeline → Pipeline
launch_worker i p =
    let id = request_id p.states i in
    record p {
      workers = assign id i p.workers;
      terminated = p.terminated || is_some (find id p.workers);
    }

unfoldable pub dispatch_solo : QueuedRequest → Pipeline → Pipeline
dispatch_solo q p =
    if is_active p.states q.state
    then launch_worker q.state (on_state q.state emit_started p)
    else p

unfoldable pub dispatch_batch : List QueuedRequest → Pipeline → Pipeline
dispatch_batch [] p = p
dispatch_batch (q ∷ qs) p = dispatch_batch qs (dispatch_solo q p)

-- Fills a batch that has room left from the front of the queue: the batch and the queue that is left.
-- A request that is no longer active is dropped.
unfoldable pub collect :
    BatchingConfig
    → List ActiveRequest
    → ℕ
    → List QueuedRequest
    → List QueuedRequest × List QueuedRequest
collect cfg states room [] = ([], [])
collect cfg states zero (q ∷ qs) = ([], q ∷ qs)
collect cfg states (suc room) (q ∷ qs) =
    let dropped = collect cfg states (suc room) qs in
    let taken = collect cfg states room qs in
    if is_long_context cfg q
    then ([], q ∷ qs)
    else (if is_active states q.state then (q ∷ taken.0, taken.1) else dropped)

abbrev pub with_queue : Pipeline → List QueuedRequest → Pipeline
with_queue p queue = record p { pending_queue = queue }

-- The batch that waited is filled up, and dispatched without the lock.
unfoldable pub fill_and_dispatch : BatchingConfig → List QueuedRequest → Pipeline → Pipeline
fill_and_dispatch cfg batch p =
    let (more, rest) = collect cfg p.states (cfg.max_batch_size - length batch) p.pending_queue in
    dispatch_batch (batch ++ more) (with_queue p rest)

unfoldable pub adaptive_round : (Pipeline → Pipeline) → Pipeline → Pipeline
adaptive_round during p =
    let cfg = p.batching_config in
    let (batch, rest) = collect cfg p.states cfg.max_batch_size p.pending_queue in
    let p' = with_queue p rest in
    if is_empty batch
    then p'
    else if ltb (length batch) cfg.max_batch_size
    then fill_and_dispatch cfg batch (during p')
    else dispatch_batch batch p'

-- A round whose wait is over; an empty queue waits on.
unfoldable pub dispatcher_round : (Pipeline → Pipeline) → Pipeline → Pipeline
dispatcher_round during p = if not p.dispatcher_running then p else elim p.pending_queue [
  | [] ↦ p
  | q ∷ qs ↦ elim p.batching_config.mode [
    | immediate ↦ p
    | serial ↦ dispatch_solo q (with_queue p qs)
    | adaptive ↦
        if is_long_context p.batching_config q
        then dispatch_solo q (with_queue p qs)
        else adaptive_round during p
  ]
]
