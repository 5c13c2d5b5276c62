-- ===== src/Runtime/Alone.antt =====
-- A node that starts with nobody around and joins, in src/runtime/edge_runtime.cpp.
use socrates.Prelude.{
  ℕ, ◌+◌, ◌-◌, ◌*◌, ◌/◌, ◌^◌, ◌≡◌, refl, ap, ◌∙◌, ltb, all_of, Bool, true, false, not, ◌&&◌, ◌||◌,
  Option, none, some, List, [], ◌∷◌, Text, is_empty, text_eq, text_eq_refl, arith, if◌then◌else◌,
}
use socrates.Types.{Result, ok, err, CapabilityProfile, ◌>>=◌}
use socrates.Runtime.Idle.{Turn, liveness, heartbeat, aged, waited, in_time}
use socrates.Cluster.{
  PeerAdvertisement, Member, MemberState, joining, alive, NodeRole, leech, participant,
  ModelPresence, MembershipSnapshot, LeadershipState,
}
use socrates.Cluster.Membership
use socrates.Cluster.Membership.{
  MembershipService, IdentityProvider, observe, promote_joining_members, update_capability, admits,
  find_member, update_member, update_model_presence, set_models, update_local_role, set_role,
  set_capability, promote, new_member, build_snapshot, liveness_round, age, age_revision,
}
use socrates.Cluster.Election
use socrates.Cluster.Election.{
  BullyElection, current, update_membership, alive_ids, max_element, elect,
}
use socrates.Pipeline.Store.{make_inference_pipeline}
use socrates.Runtime.State.{ready}
use socrates.Runtime.Start.{
  RuntimeConfig, Environment, make_edge_runtime, start, finish_start, register_self, local_peer,
  started_membership, started_election, configured,
}
use socrates.Runtime.{
  EdgeRuntime, RuntimeSnapshot, is_local_leader, told, announce_models, simulated_models,
  schedule_plan, adopt, emit_snapshot, runtime_snapshot, join_cluster, heartbeat_turn,
}
use socrates.Runtime.Shards.{scheduling_input}
use socrates.Scheduler.{PipelinePlan}
use socrates.Scheduler.Plan.{Host, create_plan}
use socrates.Manifest.{ManifestSummary}

abbrev pub plan_of : Result PipelinePlan → Option PipelinePlan
plan_of (ok plan) = some plan
plan_of (err e) = none

off : (b : Bool) → not b ≡ true → b ≡ false
off true h = absurd (cc)
off false h = refl

both : (a b : Bool) → (a && b) ≡ true → (a ≡ true) × (b ≡ true)
both a b h = (ground arith, ground arith)

-- The local node as a member of its own membership.
abbrev own_member :
    Text
    → Text
    → MemberState
    → Option CapabilityProfile
    → NodeRole
    → List ModelPresence
    → ℕ
    → Member
own_member id fingerprint state capability role models now = record {
  peer = local_peer id fingerprint;
  state = state;
  role = role;
  capability = capability;
  models = models;
  last_seen = now;
}

module _ (id fingerprint : Text) (authenticate : PeerAdvertisement → Text → Result Text)
    (profile : CapabilityProfile) (now : ℕ) (named : is_empty id ≡ false) where
  abbrev provider : IdentityProvider
  provider = record { local_identity = ok id; authenticate = authenticate }

  abbrev alone : Member → ℕ → MembershipService
  alone m revision = record {
    identity_provider = some provider;
    has_callback = true;
    running = true;
    members = m ∷ [];
    snapshot_revision = revision;
    local_node_id = id;
    liveness_active = true;
  }

  abbrev said : Member → ℕ → MembershipService × List MembershipSnapshot
  said m revision = (alone m revision, build_snapshot (alone m revision) ∷ [])

  abbrev joins : Member
  joins = own_member id fingerprint joining none leech [] now

  abbrev lives : Member
  lives = own_member id fingerprint alive none leech [] now

  abbrev profiled : Member
  profiled = own_member id fingerprint alive (some profile) leech [] now

  abbrev ready_to_run : List ModelPresence → Member
  ready_to_run models = own_member id fingerprint alive (some profile) leech models now

  abbrev takes_part : List ModelPresence → Member
  takes_part models = own_member id fingerprint alive (some profile) participant models now

  observe-alone :
      admits (some provider) (local_peer id fingerprint) ≡ true
      → observe (started_membership provider) (local_peer id fingerprint) now ≡ ok (said joins 1)
  unfolding Membership.start Membership.initial observe find_member new_member
  observe-alone admitted = rw (named, admitted) refl

  promote-alone : promote_joining_members (alone joins 1) now ≡ ok (said lives 2)
  unfolding promote_joining_members promote
  promote-alone = refl

  update_capability-alone :
      profile.node_id ≡ id → update_capability (alone lives 2) profile ≡ ok (said profiled 3)
  unfolding update_capability find_member update_member set_capability text_eq build_snapshot
  update_capability-alone own =
      let same : text_eq id profile.node_id ≡ true = rw own (text_eq_refl id) in
      rw (same, same) refl

  update_model_presence-alone :
      (models : List ModelPresence)
      → update_model_presence (alone profiled 3) models ≡ ok (said (ready_to_run models) 4)
  unfolding update_model_presence set_models
  update_model_presence-alone models = refl

  update_local_role-alone :
      (models : List ModelPresence)
      → update_local_role (alone (ready_to_run models) 4) participant
        ≡ ok (said (takes_part models) 5)
  unfolding update_local_role find_member update_member set_role text_eq build_snapshot
  update_local_role-alone models = rw (text_eq_refl id, text_eq_refl id) refl

  abbrev own_leadership : Text → ℕ → LeadershipState
  own_leadership token time = record {
    leader_id = some id;
    fence = record { term = 1; token = token; membership_revision = 4 };
    locally_valid_until = time + 30 * 10 ^ 9;
  }

  -- The election of a cluster of one, which has seen a revision.
  abbrev leading : Text → Text → ℕ → ℕ → BullyElection
  leading cluster token time revision = record {
    local_node = id;
    cluster_id = cluster;
    has_term_store = true;
    has_callback = true;
    state = own_leadership token time;
    current_term = 1;
    membership_revision = 4;
    last_snapshot_revision = revision;
    fencing_token = token;
    running = true;
  }

  elect-alone :
      (cluster token : Text) (time : ℕ) (models : List ModelPresence)
      → told token time
          (build_snapshot (alone (ready_to_run models) 4) ∷ [])
          (started_election id cluster)
        ≡ leading cluster token time 4
  unfolding Election.start Election.initial update_membership alive_ids max_element elect
      build_snapshot
  elect-alone cluster token time models = refl

  stay-alone :
      (cluster token : Text) (time : ℕ) (models : List ModelPresence)
      → told token time
          (build_snapshot (alone (takes_part models) 5) ∷ [])
          (leading cluster token time 4)
        ≡ leading cluster token time 5
  unfolding update_membership alive_ids max_element build_snapshot text_eq
  stay-alone cluster token time models = rw (text_eq_refl id) refl

  module _ (admitted : admits (some provider) (local_peer id fingerprint) ≡ true)
      (own : profile.node_id ≡ id) where
    register_self-alone :
        (register_self (local_peer id fingerprint) profile now (started_membership provider)).0
        ≡ alone profiled 3
    unfolding register_self
    register_self-alone =
        rw (register_self, observe-alone admitted, promote-alone, update_capability-alone own) refl

    module _ (makes_registry transport_starts has_callback : Bool) (received_at : ℕ)
        (config : RuntimeConfig) where
      abbrev env : Environment
      env = record {
        identity_provider = provider;
        public_key_fingerprint = fingerprint;
        discovery = none;
        profile = ok profile;
        makes_registry = makes_registry;
        transport_starts = transport_starts;
        now = now;
      }

      abbrev started : EdgeRuntime
      started = record {
        state = ready;
        production_mode = config.production_mode;
        has_callback = has_callback;
        local_node_id = id;
        local_profile = profile;
        membership = some (alone profiled 3);
        election = some (started_election id config.cluster_id);
        pipeline = some (
            configured config id
              (make_inference_pipeline transport_starts (makes_registry || false)));
        has_discovery = true;
        has_transport = transport_starts;
        has_backend_registry = makes_registry || false;
        current_plan = none;
        local_models = [];
        local_role = if config.start_as_leech then leech else participant;
        heartbeat_active = true;
      }

      start-alone : (start env config has_callback (make_edge_runtime received_at)).0 ≡ started
      unfolding start make_edge_runtime finish_start
      start-alone =
          let given : is_empty profile.node_id ≡ false = rw own named in
          rw (given, register_self-alone) refl

      not_yet : is_local_leader started ≡ ok false
      unfolding is_local_leader current Election.start Election.initial
      not_yet = refl

      aged-started : (t : ℕ) → in_time now (liveness t) ≡ true → aged t started ≡ started
      unfolding liveness_round age age_revision
      aged-started t h = let fresh : ltb 10 ((t - now) / 10 ^ 9) ≡ false = off _ h in rw fresh refl

      heartbeat-started : (beat : Text) (t : ℕ) → heartbeat_turn beat t started ≡ ok started
      unfolding heartbeat_turn
      heartbeat-started beat t = rw not_yet refl

      waited-started :
          (turns : List Turn)
          → all_of (in_time now) turns ≡ true
          → waited turns started ≡ ok started
      unfolding waited
      waited-started [] h = refl
      waited-started (liveness t ∷ turns) h =
          let (soon, later) = both (in_time now (liveness t)) (all_of (in_time now) turns) h in
          ap (waited turns) (aged-started t soon) ∙ waited-started turns later
      waited-started (heartbeat beat t ∷ turns) h =
          ap (λ r. r >>= λ r'. waited turns r') (heartbeat-started beat t) ∙ waited-started turns h

      module _ (token : Text) (time : ℕ) where
        abbrev announced : EdgeRuntime
        announced = record started {
          membership = some (alone (takes_part simulated_models) 5);
          election = some (leading config.cluster_id token time 5);
        }

        announce_models-alone : announce_models token time simulated_models started ≡ ok announced
        unfolding announce_models
        announce_models-alone =
            rw
              (
                announce_models,
                update_model_presence-alone simulated_models,
                update_local_role-alone simulated_models,
                elect-alone config.cluster_id token time simulated_models,
                stay-alone config.cluster_id token time simulated_models,
              )
              refl

        abbrev taking_part : EdgeRuntime
        taking_part = record announced { local_models = simulated_models; local_role = participant }

        is_local_leader-alone : is_local_leader taking_part ≡ ok true
        unfolding is_local_leader current
        is_local_leader-alone = rw (text_eq_refl id) refl

        abbrev own_snapshot : MembershipSnapshot
        own_snapshot = build_snapshot (alone (takes_part simulated_models) 5)

        schedule_plan-alone :
            (host : Host) (published : Option (Result ManifestSummary))
            → schedule_plan host published taking_part
              ≡ ok (
                  adopt taking_part (
                    create_plan host
                      (scheduling_input published own_snapshot (own_leadership token time).fence)))
        unfolding schedule_plan Membership.snapshot current
        schedule_plan-alone host published = refl

        emit_snapshot-alone :
            (planned : Result PipelinePlan) (has_callback : Bool)
            → (out : List RuntimeSnapshot) × (emit_snapshot
                  (record (adopt taking_part planned).0 { has_callback = has_callback })
                ≡ ok out)
        unfolding emit_snapshot runtime_snapshot Membership.snapshot current
        emit_snapshot-alone (ok plan) true = (_, refl)
        emit_snapshot-alone (err e) true = (_, refl)
        emit_snapshot-alone (ok plan) false = ([], refl)
        emit_snapshot-alone (err e) false = ([], refl)

        emitted-alone :
            (planned : Result PipelinePlan)
            → (out : List RuntimeSnapshot) × (emit_snapshot (adopt taking_part planned).0 ≡ ok out)
        emitted-alone (ok plan) = emit_snapshot-alone (ok plan) has_callback
        emitted-alone (err e) = emit_snapshot-alone (err e) has_callback

        leads-alone :
            (planned : Result PipelinePlan)
            → (is_local_leader (adopt taking_part planned).0 ≡ ok true)
              × ((adopt taking_part planned).0.current_plan ≡ plan_of planned)
        unfolding is_local_leader current
        leads-alone (ok plan) = (rw (text_eq_refl id) refl, refl)
        leads-alone (err e) = (rw (text_eq_refl id) refl, refl)

        joined-alone :
            (host : Host) (published : Option (Result ManifestSummary))
            → config.production_mode ≡ false
            → let planned =
                create_plan host
                  (scheduling_input published own_snapshot (own_leadership token time).fence) in
              join_cluster host published token time started false
              ≡ ok (
                (adopt taking_part planned).0,
                (adopt taking_part planned).1,
                (emitted-alone planned).0,
              )
        unfolding join_cluster
        joined-alone host published h =
            let planned =
              create_plan host
                (scheduling_input published own_snapshot (own_leadership token time).fence) in
            let sends : (config.production_mode && not transport_starts) ≡ false =
              ground (arith, h) in
            let runs : (config.production_mode && not (makes_registry || false)) ≡ false =
              ground (arith, h) in
            rw
              (
                join_cluster,
                sends,
                runs,
                announce_models-alone,
                is_local_leader-alone,
                schedule_plan-alone host published,
                (emitted-alone planned).1,
              )
              refl

        -- A node with a name and a profile of its own, which its identity provider admits, starts outside
        -- of production mode and joins, and in between its discovery finds nobody, not even itself, no
        -- other call is made, and its own threads take any turns, those of the liveness thread no later
        -- than ten seconds, cut to whole ones, after the start; none is taken while it joins. After the
        -- start the node leads nothing yet, since the election has seen no member. Joining succeeds, with
        -- or without the transport and the backends; when it returns the node is the leader, and its
        -- plan is what the scheduler makes of the node alone, taking part and with the models, or none
        -- where the scheduler refuses.
        pub join_cluster-alone :
            (host : Host) (published : Option (Result ManifestSummary)) (turns : List Turn)
            → config.production_mode ≡ false
            → all_of (in_time now) turns ≡ true
            → let r = (start env config has_callback (make_edge_runtime received_at)).0 in
              (is_local_leader r ≡ ok false)
              × (r' : EdgeRuntime) × (saved : List PipelinePlan) × (out : List RuntimeSnapshot)
              × ((waited turns r >>= λ w. join_cluster host published token time w false)
                  ≡ ok (r', saved, out))
              × (is_local_leader r' ≡ ok true)
              × (r'.current_plan
                  ≡ plan_of (
                      create_plan host (
                        scheduling_input published own_snapshot (own_leadership token time).fence)))
        unfolding is_local_leader current Election.start Election.initial
        join_cluster-alone host published turns h soon =
            let planned =
              create_plan host
                (scheduling_input published own_snapshot (own_leadership token time).fence) in
            let (leads, has_plan) = leads-alone planned in
            rw start-alone (
              refl,
              (adopt taking_part planned).0,
              (adopt taking_part planned).1,
              (emitted-alone planned).0,
              rw (waited-started turns soon) (joined-alone host published h),
              leads,
              has_plan,
            )
