-- ===== src/Pipeline/Queue/Batches.antt =====
-- The batches of the dispatcher of src/pipeline/inference_pipeline.cpp.
use socrates.Prelude.{
  ℕ, zero, suc, ◌-◌, ◌≤◌, ◌<◌, ◌≡◌, refl, sym, ap, subst, ◌∙◌, Bool, true, false, not, List, [],
  ◌∷◌, ◌++◌, if◌then◌else◌, ltb, length, length-append, all_of, all_of-append, is_empty, arith, ◌⊎◌,
  inl, inr, and_intro,
}
use socrates.Pipeline.{ActiveRequest, BatchingConfig}
use socrates.Pipeline.Store.{Pipeline, QueuedRequest, is_long_context, is_active}
use socrates.Pipeline.Queue.{collect, with_queue, dispatch_batch, fill_and_dispatch, adaptive_round}

abbrev is_short : BatchingConfig → QueuedRequest → Bool
is_short cfg q = not (is_long_context cfg q)

abbrev still_active : List ActiveRequest → List QueuedRequest → List QueuedRequest
still_active states [] = []
still_active states (q ∷ qs) =
    let rest = still_active states qs in if is_active states q.state then q ∷ rest else rest

-- Why no more of the queue was taken: nothing is left, the batch is full, or a long request is next.
abbrev Stopped : BatchingConfig → ℕ → List QueuedRequest → Type 0
Stopped cfg room [] = Unit {0}
Stopped cfg room (q ∷ qs) = (room ≡ 0) ⊎ (is_long_context cfg q ≡ true)

pub record Collected (cfg : BatchingConfig) (states : List ActiveRequest) (room : ℕ)
    (queue batch rest : List QueuedRequest) : Type 0 where
  pub taken : List QueuedRequest
  pub in_order : queue ≡ taken ++ rest
  pub filtered : batch ≡ still_active states taken
  pub short : all_of (is_short cfg) batch ≡ true
  pub bound : length batch ≤ room
  pub stopped : Stopped cfg (room - length batch) rest

module _ (cfg : BatchingConfig) (states : List ActiveRequest) (room : ℕ) (q : QueuedRequest)
    (qs : List QueuedRequest) where
  stop_long : is_long_context cfg q ≡ true → Collected cfg states room (q ∷ qs) [] (q ∷ qs)
  stop_long h = record {
    taken = [];
    in_order = refl;
    filtered = refl;
    short = refl;
    bound = omega arith;
    stopped = inr h;
  }

  drop_inactive :
      (batch rest : List QueuedRequest)
      → is_active states q.state ≡ false
      → Collected cfg states room qs batch rest
      → Collected cfg states room (q ∷ qs) batch rest
  drop_inactive batch rest h c = record {
    taken = q ∷ c.taken;
    in_order = ap (◌∷◌ q) c.in_order;
    filtered = rw h c.filtered;
    short = c.short;
    bound = c.bound;
    stopped = c.stopped;
  }

  take_active :
      (batch rest : List QueuedRequest)
      → is_long_context cfg q ≡ false
      → is_active states q.state ≡ true
      → Collected cfg states room qs batch rest
      → Collected cfg states (suc room) (q ∷ qs) (q ∷ batch) rest
  take_active batch rest l h c =
      let fewer : room - length batch ≡ suc room - length (q ∷ batch) = omega arith in
      record {
        taken = q ∷ c.taken;
        in_order = ap (◌∷◌ q) c.in_order;
        filtered = rw h (ap (◌∷◌ q) c.filtered);
        short = rw l c.short;
        bound = omega (arith, c.bound);
        stopped = subst (λ k. Stopped cfg k rest) fewer c.stopped;
      }

choose :
    {cfg : BatchingConfig} {states : List ActiveRequest} {room : ℕ} {queue : List QueuedRequest}
    (t : Bool) (x y : List QueuedRequest × List QueuedRequest)
    → (t ≡ true → Collected cfg states room queue x.0 x.1)
    → (t ≡ false → Collected cfg states room queue y.0 y.1)
    → Collected cfg states room queue (if t then x else y).0 (if t then x else y).1
choose true x y f g = f refl
choose false x y f g = g refl

-- A batch is what a front part of the queue has of requests that are still active, in the queue's order;
-- it has no long request and no more than there is room for, and more was not taken because the
-- queue was empty, the batch full, or a long request next.
collect-Collected :
    (cfg : BatchingConfig) (states : List ActiveRequest) (room : ℕ) (queue : List QueuedRequest)
    → Collected cfg states room queue
        (collect cfg states room queue).0
        (collect cfg states room queue).1
unfolding collect
collect-Collected cfg states room [] = record {
  taken = [];
  in_order = refl;
  filtered = refl;
  short = refl;
  bound = omega arith;
  stopped = tt;
}
collect-Collected cfg states zero (q ∷ qs) = record {
  taken = [];
  in_order = refl;
  filtered = refl;
  short = refl;
  bound = omega arith;
  stopped = inl refl;
}
collect-Collected cfg states (suc room) (q ∷ qs) =
    let taken = collect cfg states room qs in
    let dropped = collect cfg states (suc room) qs in
    let kept : List QueuedRequest × List QueuedRequest = (q ∷ taken.0, taken.1) in
    let long : List QueuedRequest × List QueuedRequest = ([], q ∷ qs) in
    let active = is_active states q.state in
    choose (is_long_context cfg q) long (if active then kept else dropped)
      (stop_long cfg states (suc room) q qs)
      (λ l.
        choose active kept dropped
          (λ a.
            take_active cfg states room q qs taken.0 taken.1 l a
              (collect-Collected cfg states room qs))
          (λ a.
            drop_inactive cfg states (suc room) q qs dropped.0 dropped.1 a
              (collect-Collected cfg states (suc room) qs)))

dispatch_nothing : (p : Pipeline) → p ≡ dispatch_batch [] p
unfolding dispatch_batch
dispatch_nothing p = refl

-- The requests that a round takes from the queue, and the pipeline that it dispatches them in: a front
-- part of the queue at once, if nothing was found or the batch is full; otherwise what was found at
-- first with a front part of the queue that the wait left.
pub data Gathered (during : Pipeline → Pipeline) (p : Pipeline)
    : List QueuedRequest → Pipeline → Type 0 where
  at_once :
      {batch rest : List QueuedRequest}
      → Collected p.batching_config p.states p.batching_config.max_batch_size p.pending_queue batch
          rest
      → (is_empty batch ≡ true) ⊎ (length batch ≡ p.batching_config.max_batch_size)
      → Gathered during p batch (with_queue p rest)
  after_wait :
      {batch rest more rest' : List QueuedRequest}
      → Collected p.batching_config p.states p.batching_config.max_batch_size p.pending_queue batch
          rest
      → is_empty batch ≡ false
      → length batch < p.batching_config.max_batch_size
      → Collected p.batching_config
          (during (with_queue p rest)).states
          (p.batching_config.max_batch_size - length batch)
          (during (with_queue p rest)).pending_queue
          more
          rest'
      → Gathered during p (batch ++ more) (with_queue (during (with_queue p rest)) rest')

-- The outcome of a round: what was gathered is dispatched, request by request.
pub record Dispatches (during : Pipeline → Pipeline) (p outcome : Pipeline) : Type 0 where
  pub members : List QueuedRequest
  pub before : Pipeline
  pub gathered : Gathered during p members before
  pub done : outcome ≡ dispatch_batch members before
  pub bound : length members ≤ p.batching_config.max_batch_size
  pub short : all_of (is_short p.batching_config) members ≡ true

pick_outcome :
    {during : Pipeline → Pipeline} {p : Pipeline} (t : Bool) (x y : Pipeline)
    → (t ≡ true → Dispatches during p x)
    → (t ≡ false → Dispatches during p y)
    → Dispatches during p (if t then x else y)
pick_outcome true x y f g = f refl
pick_outcome false x y f g = g refl

both_short :
    (cfg : BatchingConfig) (a b : List QueuedRequest)
    → all_of (is_short cfg) a ≡ true
    → all_of (is_short cfg) b ≡ true
    → all_of (is_short cfg) (a ++ b) ≡ true
both_short cfg a b p q = all_of-append (is_short cfg) a b ∙ and_intro _ _ p q

nothing_in : (batch : List QueuedRequest) → is_empty batch ≡ true → batch ≡ []
nothing_in [] h = refl
nothing_in (q ∷ qs) h = absurd (cc)

has_room : (a b : ℕ) → ltb a b ≡ true → a < b
has_room a b h = ground arith

is_full : (a b : ℕ) → a ≤ b → ltb a b ≡ false → a ≡ b
is_full a b le h = ground arith

-- An adaptive round dispatches a batch in the queue's order: the requests of a front part of the queue
-- that are still active, and, if there are some but fewer than `max_batch_size`, then also those of a
-- front part of the queue that other threads leave after the wait. A front part ends where the batch
-- is full, at a long request, or with the queue. So at most `max_batch_size` requests are dispatched
-- and none of them is long, whatever other threads do to the queue during the wait.
pub adaptive_round-Dispatches :
    (during : Pipeline → Pipeline) (p : Pipeline) → Dispatches during p (adaptive_round during p)
unfolding adaptive_round fill_and_dispatch
adaptive_round-Dispatches during p =
    let cfg = p.batching_config in
    let first = collect cfg p.states cfg.max_batch_size p.pending_queue in
    let c = collect-Collected cfg p.states cfg.max_batch_size p.pending_queue in
    let p₁ = with_queue p first.1 in
    let p₂ = during p₁ in
    let room = cfg.max_batch_size - length first.0 in
    let second = collect cfg p₂.states room p₂.pending_queue in
    let d = collect-Collected cfg p₂.states room p₂.pending_queue in
    pick_outcome (is_empty first.0) p₁ _
      (λ e. record {
        members = first.0;
        before = p₁;
        gathered = at_once c (inl e);
        done = dispatch_nothing p₁ ∙ ap (λ b. dispatch_batch b p₁) (sym (nothing_in first.0 e));
        bound = c.bound;
        short = c.short;
      })
      (λ some_found.
        pick_outcome (ltb (length first.0) cfg.max_batch_size) _ _
          (λ e. record {
            members = first.0 ++ second.0;
            before = with_queue p₂ second.1;
            gathered = after_wait c some_found (has_room _ _ e) d;
            done = refl;
            bound = omega (arith, length-append first.0 second.0, c.bound, d.bound);
            short = both_short cfg first.0 second.0 c.short d.short;
          })
          (λ e. record {
            members = first.0;
            before = p₁;
            gathered = at_once c (inr (is_full _ _ c.bound e));
            done = refl;
            bound = c.bound;
            short = c.short;
          }))
