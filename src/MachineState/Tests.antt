-- ===== src/MachineState/Tests.antt =====
-- A restoration that fails where the restored machine would take the disk.
use my.Base.{◌≡◌, refl, true, false, not, ◌&&◌, [], ◌∷◌}
use my.Base.Num.{nat}
use my.Base.Failure.{ok, cancelled}
use my.MachineState.{
  Config, RestoreAnswers, validate_config, after, refused, late, commit, restore_prepared,
  restore_drained, restore_begun, restore_end, restore, stop_machine, drain_adapter, listen,
  unlisten, prepare_state, create_adapter, create_machine, restore_state, destroy_machine,
  dispose_adapter, discard_state, run_machine, commit_state,
}
use my.MachineState.Ends.{Settled}
use my.MachineState.Restored.{restore-Settled}

abbrev config : Config
config = record { memory_size = nat 268435456; vga_memory_size = nat 8388608; supported = true }

abbrev cut_short : RestoreAnswers
cut_short = record {
  checked = ok tt;
  stopped = ok tt;
  drained = ok tt;
  checked_drained = ok tt;
  prepared = ok tt;
  checked_prepared = ok tt;
  compatible = true;
  config = config;
  created = ok tt;
  checked_created = ok tt;
  restored = ok tt;
  checked_restored = ok tt;
  media_empty = true;
  drained_new = ok tt;
  committed = refused cancelled;
}

cut_short_undone :
    (restore true true false cut_short).0.calls
    ≡ stop_machine ∷ drain_adapter ∷ listen ∷ prepare_state ∷ create_adapter ∷ create_machine
      ∷ restore_state ∷ drain_adapter ∷ unlisten ∷ destroy_machine ∷ dispose_adapter ∷ discard_state
      ∷ run_machine ∷ []
unfolding restore restore_begun restore_drained restore_prepared restore_end after commit
    validate_config
cut_short_undone = refl

-- commitState is rejected after it has replaced the disk: the machine that was restored is destroyed,
-- and the old one runs on the new disk.
abbrev rejected_late : RestoreAnswers
rejected_late = record cut_short { committed = late cancelled }

rejected_late_undone :
    (restore true true false rejected_late).0.calls
    ≡ stop_machine ∷ drain_adapter ∷ listen ∷ prepare_state ∷ create_adapter ∷ create_machine
      ∷ restore_state ∷ drain_adapter ∷ commit_state ∷ unlisten ∷ destroy_machine ∷ dispose_adapter
      ∷ discard_state ∷ run_machine ∷ []
unfolding restore restore_begun restore_drained restore_prepared restore_end after validate_config
    commit
rejected_late_undone = refl

restore-Settled_example :
    Settled (true && true && not false) true (restore true true false rejected_late)
restore-Settled_example = restore-Settled true true false rejected_late refl
