-- ===== src/Discovery/Coordinator.antt =====
-- src/discovery/discovery_service.cpp: the coordinator, which starts an adapter for each method in
-- order. The adapters and what makes them are parameters; the callback, handed on to each, is left out.
use socrates.Prelude.{
  Bool, true, false, not, ◌||◌, Option, none, some, List, [], ◌∷◌, ◌++◌, map, ◌≡◌, refl, ◌∙◌,
  length, length-map, if◌then◌else◌, all_of, all_of-append, is_empty, arith, Bool-cases,
  Option-cases, inl, inr,
}
use socrates.Types.{ok, err, ErrorCode, failed_precondition, Result-cases}
use socrates.Cluster.{PeerAdvertisement}
use socrates.Discovery.{DiscoveryMethod, DiscoveryConfig, DiscoveryService, ServiceLaws}

-- The configuration and the advertisement are set before they are read.
pub record CoordinatedDiscovery (S : Type 0) : Type 0 where
  pub config : Option DiscoveryConfig
  pub local_peer : Option PeerAdvertisement
  pub adapters : List S
  pub running : Bool

pub data Call : Type 0 where
  starts : DiscoveryConfig → PeerAdvertisement → Call
  updates : PeerAdvertisement → Call
  stops : Call

-- The new state, the adapters that were stopped and let go, and the code of what is thrown.
pub record Outcome (S : Type 0) : Type 0 where
  pub state : CoordinatedDiscovery S
  pub released : List S
  pub thrown : Option ErrorCode

module _ {S : Type 0} (ops : DiscoveryService S) (make_adapter : DiscoveryMethod → Option S) where
  -- An adapter is kept once it has started; what one throws ends the loop.
  unfoldable pub start_each :
      DiscoveryConfig
      → PeerAdvertisement
      → List DiscoveryMethod
      → List S
      → List S × Option ErrorCode
  start_each config peer [] adapters = (adapters, none)
  start_each config peer (method ∷ methods) adapters = elim (make_adapter method) [
    | none ↦ start_each config peer methods adapters
    | some a ↦ elim (ops.start a config peer) [
      | ok a' ↦ start_each config peer methods (adapters ++ (a' ∷ []))
      | err code ↦ (adapters, some code)
    ]
  ]

  unfoldable pub start : CoordinatedDiscovery S → DiscoveryConfig → PeerAdvertisement → Outcome S
  start c config peer =
      let (adapters, thrown) = start_each config peer config.fallback_order c.adapters in
      let refused : Outcome S = record {
        state = c;
        released = [];
        thrown = some failed_precondition;
      } in
      let begun : Outcome S = record {
        state = record {
          config = some config;
          local_peer = some peer;
          adapters = adapters;
          running = true;
        };
        released = [];
        thrown = thrown;
      } in
      if c.running then refused else begun

  unfoldable pub update_advertisement : CoordinatedDiscovery S → PeerAdvertisement → Outcome S
  update_advertisement c peer = record {
    state = record c {
      local_peer = some peer;
      adapters = map (λ a. ops.update_advertisement a peer) c.adapters;
    };
    released = [];
    thrown = none;
  }

  unfoldable pub stop : CoordinatedDiscovery S → Outcome S
  stop c =
      let halted : Outcome S = record {
        state = record c { running = false; adapters = [] };
        released = map ops.stop c.adapters;
        thrown = none;
      } in
      if c.running then halted else record { state = c; released = []; thrown = none }

  unfoldable pub step : CoordinatedDiscovery S → Call → Outcome S
  step c (starts config peer) = start c config peer
  step c (updates peer) = update_advertisement c peer
  step c stops = stop c

  -- The adapters held run, and a coordinator that does not run holds none.
  pub record Held (c : CoordinatedDiscovery S) : Type 0 where
    pub run : all_of ops.is_running c.adapters ≡ true
    pub idle : c.running || is_empty c.adapters ≡ true

  module _ (laws : ServiceLaws ops) where
    start_each-runs :
        (config : DiscoveryConfig) (peer : PeerAdvertisement) (methods : List DiscoveryMethod)
        (adapters : List S)
        → all_of ops.is_running adapters ≡ true
        → all_of ops.is_running (start_each config peer methods adapters).0 ≡ true
    unfolding start_each
    start_each-runs config peer [] adapters h = h
    start_each-runs config peer (method ∷ methods) adapters h =
        elim (Option-cases (make_adapter method)) [
          | inl e ↦ rw (e, start_each) (start_each-runs config peer methods adapters h)
          | inr (a, e) ↦ elim (Result-cases (ops.start a config peer)) [
            | inl (code, f) ↦ rw (e, f, start_each) h
            | inr (a', f) ↦
                let runs : ops.is_running a' ≡ true = laws.start-runs a a' config peer f in
                let kept : all_of ops.is_running (adapters ++ (a' ∷ [])) ≡ true =
                  ground (arith, h, runs, all_of-append ops.is_running adapters (a' ∷ [])) in
                rw (e, f, start_each) (start_each-runs config peer methods _ kept)
          ]
        ]

    updated-run :
        (peer : PeerAdvertisement) (adapters : List S)
        → all_of ops.is_running (map (λ a. ops.update_advertisement a peer) adapters)
          ≡ all_of ops.is_running adapters
    updated-run peer [] = refl
    updated-run peer (a ∷ as') = rw (laws.update_keeps a peer, updated-run peer as') refl

    updated-empty :
        (peer : PeerAdvertisement) (adapters : List S)
        → is_empty (map (λ a. ops.update_advertisement a peer) adapters) ≡ is_empty adapters
    updated-empty peer [] = refl
    updated-empty peer (a ∷ as') = refl

    stopped-halt :
        (adapters : List S) → all_of (λ a. not (ops.is_running a)) (map ops.stop adapters) ≡ true
    stopped-halt [] = refl
    stopped-halt (a ∷ as') = rw (laws.stop-halts a, stopped-halt as') refl

    emptied : (adapters : List S) → is_empty adapters ≡ true → adapters ≡ []
    emptied [] h = refl
    emptied (a ∷ as') h = absurd (ground (arith, h))

    stop-all :
        (c : CoordinatedDiscovery S)
        → Held c
        → (length (stop c).released ≡ length c.adapters) × ((stop c).state.adapters ≡ [])
    unfolding stop
    stop-all c i = elim (Bool-cases c.running) [
      | inl e ↦ rw (e, stop) (length-map ops.stop c.adapters, refl)
      | inr e ↦
          let none_held = emptied c.adapters (ground (arith, e, i.idle)) in
          rw (e, stop) (rw none_held refl, none_held)
    ]

    step-kept :
        (c : CoordinatedDiscovery S) (call : Call)
        → Held c
        → Held (step c call).state
          × (all_of (λ a. not (ops.is_running a)) (step c call).released ≡ true)
    unfolding step start update_advertisement stop
    step-kept c (starts config peer) i = elim (Bool-cases c.running) [
      | inl e ↦ rw (e, start) (record { run = i.run; idle = refl }, refl)
      | inr e ↦
          let run = start_each-runs config peer config.fallback_order c.adapters i.run in
          rw (e, start) (record { run = run; idle = refl }, refl)
    ]
    step-kept c (updates peer) i = (
      record {
        run = updated-run peer c.adapters ∙ i.run;
        idle = rw (updated-empty peer c.adapters) i.idle;
      },
      refl,
    )
    step-kept c stops i = elim (Bool-cases c.running) [
      | inl e ↦ rw (e, stop) (record { run = refl; idle = refl }, stopped-halt c.adapters)
      | inr e ↦ rw (e, stop) (record { run = i.run; idle = ground (arith, e, i.idle) }, refl)
    ]

    -- Every call, a start that throws among them, leaves a coordinator whose adapters all run and
    -- which holds none unless it is running itself. The adapters that a call lets go have stopped,
    -- and a stop lets all of them go and holds none.
    pub step-Held :
        (c : CoordinatedDiscovery S) (call : Call)
        → Held c
        → Held (step c call).state
          × (all_of (λ a. not (ops.is_running a)) (step c call).released ≡ true)
          × (length (step c stops).released ≡ length c.adapters)
          × ((step c stops).state.adapters ≡ [])
    unfolding step
    step-Held c call i =
        let (held, quiet) = step-kept c call i in
        let (all, nothing) = stop-all c i in (held, quiet, all, nothing)
