-- ===== src/Tests/Store.antt =====
-- Locks, records and rollbacks of the shared state at concrete inputs.
use mcp_broker.Prelude.{◌+◌, ◌≡◌, refl, none, some, [], ◌∷◌, List, ℕ, arith, is_blank}
use mcp_broker.Prelude.Result.{ok, err}
use mcp_broker.Value.{pos}
use mcp_broker.SharedPolicy.{validate_tenant_context, required_identifier, required_text}
use mcp_broker.SharedState.{
  Lock, Record, Files, no_files, utc, run, result_of, acquire_lock, apply_state, roll_back,
  latest_revision, lock_mismatch, recover,
}
use mcp_broker.SharedState.Recovery.{
  Operation, acquiring, applying, rolling_back, perform_all, recover-lose_records, Restored,
  lose_records, empty-IsReplayed,
}
use mcp_broker.SharedState.Fencing.{apply_state-fenced}
use mcp_broker.SharedState.Applying.{revision_reused}
use mcp_broker.SharedState.Progress.{Lands, acquire_lock-Lands}
use mcp_broker.SharedState.Cell.{Steps, empty_cell}
use mcp_broker.SharedState.Refinement.{view, outcomes, perform_all-Steps}
use mcp_broker.Tests.Policies.{tenant}

abbrev lock_of : ℕ → ℕ → Lock
lock_of token now = record {
  owner_id = "ann";
  token = token;
  tenant = record { tenant_id = "acme"; workspace_id = "main"; user_id = "ann" };
  acquired_at = now;
  expires_at = now + 10_000_000;
}

abbrev first_lock : Lock
first_lock = lock_of 1 5

abbrev asking : ℕ → Operation
asking now = acquiring "ann" tenant (utc now) (pos 10)

abbrev locked : Files
locked = record no_files { lock = some first_lock; lock_counter = some 1 }

abbrev second_time : ℕ
second_time = 20_000_000

-- The first holder's lock has expired, and another asks.
apply_state-fenced_example :
    result_of (
      apply_state first_lock [] none (
        perform_all
          (rolling_back first_lock ∷ [])
          (run (acquire_lock "ann" tenant (utc second_time) (pos 10) locked) locked)))
    ≡ err lock_mismatch
unfolding acquire_lock validate_tenant_context required_identifier required_text is_blank
apply_state-fenced_example =
    (apply_state-fenced locked first_lock (lock_of 2 second_time) "ann" tenant (utc second_time)
      (pos 10) (rolling_back first_lock ∷ []) [] none (omega arith) refl).0

abbrev first_record : Record
first_record = record { revision = 1; state = [] }

abbrev second_record : Record
second_record = record { revision = 2; state = [] }

abbrev twice : Files
twice = record locked { active = some second_record; previous = some first_record }

revision_reused_example :
    result_of (apply_state first_lock [] (some 1) (run (roll_back first_lock twice) twice))
    ≡ ok second_record
unfolding roll_back
revision_reused_example =
    revision_reused first_lock twice second_record first_record []
      (record { active_revision = 1; previous_revision = 2 }) refl refl (omega arith) refl

abbrev history : List Operation
history = asking 5 ∷ applying first_lock [] none ∷ applying first_lock [] (some 1) ∷ []

recover-lose_records_example :
    Restored second_record
      (perform_all history no_files).previous
      (recover (lose_records (perform_all history no_files)))
      (lose_records (perform_all history no_files))
unfolding acquire_lock validate_tenant_context required_identifier required_text is_blank
    apply_state latest_revision
recover-lose_records_example = recover-lose_records history second_record refl

acquire_lock-Lands_example : Lands "ann" tenant [] (utc second_time) (pos 10) locked
unfolding validate_tenant_context required_identifier required_text is_blank
acquire_lock-Lands_example =
    acquire_lock-Lands "ann" "ann" tenant [] _ second_time (pos 10) locked refl refl (omega arith)
      (omega arith)

perform_all-Steps_example :
    Steps (outcomes history no_files) empty_cell (view (perform_all history no_files))
perform_all-Steps_example = perform_all-Steps history no_files empty-IsReplayed
