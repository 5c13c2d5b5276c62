-- ===== src/Runtime/State.antt =====
-- `RuntimeState` of include/socrates/types.h, and the tests that src/runtime/edge_runtime.cpp makes on it.
use socrates.Prelude.{Bool, true, false}

pub data RuntimeState : Type 0 where
  starting discovering joining electing ready replanning degraded stopping stopped : RuntimeState

abbrev pub is_stopped : RuntimeState → Bool
is_stopped stopped = true
is_stopped starting = false
is_stopped discovering = false
is_stopped joining = false
is_stopped electing = false
is_stopped ready = false
is_stopped replanning = false
is_stopped degraded = false
is_stopped stopping = false

abbrev pub is_stopping : RuntimeState → Bool
is_stopping stopping = true
is_stopping stopped = false
is_stopping starting = false
is_stopping discovering = false
is_stopping joining = false
is_stopping electing = false
is_stopping ready = false
is_stopping replanning = false
is_stopping degraded = false

abbrev pub serves : RuntimeState → Bool
serves ready = true
serves degraded = true
serves starting = false
serves discovering = false
serves joining = false
serves electing = false
serves replanning = false
serves stopping = false
serves stopped = false
