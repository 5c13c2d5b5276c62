-- ===== src/Backends/Leases.antt =====
-- The leases of src/model/model_manager.cpp.
use socrates.Prelude.{◌≡◌, refl, false, not, ◌&&◌, List, Text, text, text_eq_refl, subst}
use socrates.Types.{
  ok, err, guard, >>=-eq-ok, ok-injective, already_exists, invalid_argument, not_found,
}
use socrates.Scheduler.{StageAssignment}
use socrates.Backends.{Files, ShardLease, acquire, leased, relative, at_start, find_text, size_or}

abbrev Once : Files → StageAssignment → ShardLease × List (Text × Text) → Type 0
Once files assignment (lease, leases) =
    (lease.shard_id ≡ assignment.shard_id)
    × (acquire files leases assignment false ≡ err already_exists)

-- A lease is for the shard asked for. From then on, every further request for the shard that is not
-- cancelled is refused, since no call gives a lease back.
acquire-once :
    (files : Files) (leases : List (Text × Text)) (assignment : StageAssignment)
    (lease : ShardLease) (leases' : List (Text × Text))
    → acquire files leases assignment false ≡ ok (lease, leases')
    → (lease.shard_id ≡ assignment.shard_id)
      × (acquire files leases' assignment false ≡ err already_exists)
unfolding acquire leased
acquire-once files leases assignment lease leases' h =
    let uri = assignment.artifact.uri in
    let full = files.resolve_path (relative uri) in
    let (_, g₁, h₁) =
      >>=-eq-ok
        (guard
          (not (
            not (at_start (find_text (text "file:./") uri))
            && at_start (find_text (text "file:") uri)))
          invalid_argument)
        _ h in
    let (_, g₂, h₂) =
      >>=-eq-ok (guard (not (leased assignment.shard_id leases)) already_exists) _ h₁ in
    let (_, g₃, h₃) = >>=-eq-ok (guard (files.file_exists full) not_found) _ h₂ in
    let (size, g₄, h₄) = >>=-eq-ok (size_or (files.file_size full)) _ h₃ in
    let granted = ok-injective h₄ in
    subst (Once files assignment) granted (refl, rw (g₁, leased, text_eq_refl assignment.shard_id))
