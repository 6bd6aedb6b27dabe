-- ===== src/Daemon/Binding.antt =====
-- `apply_live_binding_with_admin` from the loop on, up to the writing of the plan that follows when all
-- targets are active.
use apm_projectrunner.Base.{String, List, [], ◌∷◌, format}
use apm_projectrunner.State.Apply.{RouterApplyRecord}
use apm_projectrunner.Daemon.Live.{Tried, ok, err, RouterTarget, RouterAdmin, Call}
use apm_projectrunner.Daemon.Loop.{
  Progress, Step, going, breaking, leaving, apply_targets, rollback_applied_targets,
}

-- Every target is active, or the command fails with what it prints and its attempts.
pub data LiveBinding (World : Type 0) : Type 0 where
  all_active : Progress World → LiveBinding World
  undone : String → List RouterApplyRecord → LiveBinding World

module _ {World : Type 0} (admin : RouterAdmin World) (call : Call) where
  abbrev pub begun : World → Progress World
  begun w = record { world = w; attempts = []; applied = []; acknowledgements = [] }

  abbrev pub after_rollback :
      String → World × List RouterApplyRecord → World × Tried (LiveBinding World)
  after_rollback why (w, attempts) =
      (w, ok (undone (format ("apmpr: " ∷ why ∷ "\n" ∷ [])) attempts))

  abbrev pub concluded : Step World → World × Tried (LiveBinding World)
  concluded (going p) = (p.world, ok (all_active p))
  concluded (breaking why p) = after_rollback why (rollback_applied_targets admin call p)
  concluded (leaving why w) = (w, err why)

  unfoldable pub live_binding : List RouterTarget → World → World × Tried (LiveBinding World)
  live_binding targets w = concluded (apply_targets admin call targets (begun w))
