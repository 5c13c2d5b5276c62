-- ===== src/Cluster/Election.antt =====
-- src/cluster/bully_election.cpp: the leader is the live member with the greatest id. The random
-- token and the clock are arguments; what reaches the term store and the callback is a list in order.
pub mod Laws
use socrates.Prelude.{
  ℕ, ◌+◌, ◌*◌, ◌%◌, ◌^◌, Bool, true, false, not, ◌||◌, Option, none, some, List, [], ◌∷◌, ◌++◌,
  if◌then◌else◌, ltb, Text, text_eq, text_ltb,
}
use socrates.Types.{
  LeadershipFence, Result, ok, err, guard, failed_precondition, data_loss, ◌>>=◌, ◌>>◌,
}
use socrates.Cluster.{Member, MembershipSnapshot, LeadershipState, is_alive}

pub data Effect : Type 0 where
  stores : Text → ℕ → Effect
  announces : LeadershipState → Effect

pub record BullyElection : Type 0 where
  pub local_node : Text
  pub cluster_id : Text
  pub has_term_store : Bool
  pub has_callback : Bool
  pub state : LeadershipState
  pub current_term : ℕ
  pub membership_revision : ℕ
  pub last_snapshot_revision : ℕ
  pub fencing_token : Text
  pub running : Bool

unfoldable pub initial : BullyElection
initial = record {
  local_node = [];
  cluster_id = [];
  has_term_store = false;
  has_callback = false;
  state = record {
    leader_id = none;
    fence = record { term = 0; token = []; membership_revision = 0 };
    locally_valid_until = 0;
  };
  current_term = 0;
  membership_revision = 0;
  last_snapshot_revision = 0;
  fencing_token = [];
  running = false;
}

abbrev pub loaded_or : Result ℕ → ℕ → ℕ
loaded_or (ok t) old = t
loaded_or (err e) old = old

-- `loaded` is what `load_term` of the store returns.
unfoldable pub start : BullyElection → Text → Text → Result ℕ → Bool → Result BullyElection
start e local_node cluster_id loaded has_callback = do
  guard (not e.running) failed_precondition
  ok (record e {
    local_node = local_node;
    cluster_id = cluster_id;
    has_term_store = true;
    has_callback = has_callback;
    running = true;
    current_term = loaded_or loaded e.current_term;
  })

unfoldable pub alive_ids : List Member → List Text
alive_ids [] = []
alive_ids (m ∷ ms) =
    let rest = alive_ids ms in if is_alive m.state then m.peer.node_id ∷ rest else rest

-- `std::max_element` from its first element on.
unfoldable pub max_element : Text → List Text → Text
max_element best [] = best
max_element best (x ∷ xs) = max_element (if text_ltb best x then x else best) xs

abbrev pub need_election : Option Text → Text → Bool
need_election none highest = true
need_election (some l) highest = not (text_eq l highest)

abbrev pub emit_state : BullyElection → List Effect
emit_state e = if e.has_callback then announces e.state ∷ [] else []

abbrev pub store_term : BullyElection → List Effect
store_term e = if e.has_term_store then stores e.cluster_id e.current_term ∷ [] else []

-- A new term and token for the new leader. The lease is 30 seconds of the clock's nanoseconds.
unfoldable pub elect : BullyElection → Text → ℕ → Text → ℕ → BullyElection
elect e highest revision token now =
    let term = (e.current_term + 1) % 2 ^ 64 in
    record e {
      current_term = term;
      fencing_token = token;
      membership_revision = revision;
      state = record {
        leader_id = some highest;
        fence = record { term = term; token = token; membership_revision = revision };
        locally_valid_until = now + 30 * 10 ^ 9;
      };
    }

abbrev pub run_round : BullyElection → List Text → ℕ → Text → ℕ → BullyElection × List Effect
run_round e [] revision token now =
    let e' = record e { state = record (e.state) { leader_id = none } } in (e', emit_state e')
run_round e (x ∷ xs) revision token now =
    let highest = max_element x xs in
    let e' = elect e highest revision token now in
    if need_election e.state.leader_id highest
    then (e', store_term e' ++ emit_state e')
    else (e, emit_state e)

unfoldable pub update_membership :
    BullyElection → MembershipSnapshot → Text → ℕ → Result (BullyElection × List Effect)
update_membership e snapshot token now = if not e.running then ok (e, []) else (do
  guard (not (ltb snapshot.revision e.last_snapshot_revision)) data_loss
  let e' = record e { last_snapshot_revision = snapshot.revision }
  ok (run_round e' (alive_ids snapshot.members) snapshot.revision token now))

unfoldable pub current : BullyElection → Result LeadershipState
current e = do guard e.running failed_precondition; ok e.state

unfoldable pub stop : BullyElection → BullyElection
stop e = record e { running = false }

abbrev pub is_some_text : Option Text → Text → Bool
is_some_text none t = false
is_some_text (some l) t = text_eq l t

unfoldable pub is_leader : BullyElection → Bool
is_leader e = is_some_text e.state.leader_id e.local_node
