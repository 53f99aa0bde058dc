-- ===== src/Contract/Stages.antt =====
-- src/shared/task-board-contract/index.ts: stages, actors, park vocabulary, the pipeline template
-- and the review policy.
use nexus_seventeen.Prelude.{
  ℕ, ◌≡◌, ◌↔◌, Bool, true, false, List, [], ◌∷◌, Option, none, some, arith, nat_eq, Eq,
}

pub data WorkItemStage : Type 0 where
  refinement project_resolution research planning implementation testing verification human_review
        deployment :
      WorkItemStage

abbrev ordinal : WorkItemStage → ℕ
ordinal refinement = 0
ordinal project_resolution = 1
ordinal research = 2
ordinal planning = 3
ordinal implementation = 4
ordinal testing = 5
ordinal verification = 6
ordinal human_review = 7
ordinal deployment = 8

unfoldable pub stage_eq : WorkItemStage → WorkItemStage → Bool
stage_eq a b = nat_eq (ordinal a) (ordinal b)

stage_eq→eq : (a b : WorkItemStage) → stage_eq a b ≡ true → a ≡ b
unfolding stage_eq
stage_eq→eq a b h = ground arith

stage_eq_self : (a : WorkItemStage) → stage_eq a a ≡ true
unfolding stage_eq
stage_eq_self a = ground arith

pub stage_eq_iff : (a b : WorkItemStage) → (stage_eq a b ≡ true) ↔ (a ≡ b)
stage_eq_iff a b = (stage_eq→eq a b, λ e. rw e (stage_eq_self b))

instance abbrev pub eq_stage : Eq WorkItemStage
eq_stage = record { is_same = stage_eq; same_iff = stage_eq_iff }

pub data ActorType : Type 0 where
  human agent system : ActorType

pub data ParkCategory : Type 0 where
  open_question planning_run_failed design_run_failed hazardous_without_pipeline plan_rejected_twice
        bright_line scope_violation stage_cap_exceeded task_cap_exceeded base_diverged
        child_failed :
      ParkCategory

pub data ParkResolution : Type 0 where
  resumed abandoned auto_abandoned dead_letter : ParkResolution

pub data TemplateShape : Type 0 where
  v1 v2 : TemplateShape

-- The node stages of a workflow are work-item stages; a template is a list of them.
unfoldable pub pipeline_template_shape : List WorkItemStage → Option TemplateShape
pipeline_template_shape (implementation ∷ testing ∷ []) = some v1
pipeline_template_shape (implementation ∷ testing ∷ verification ∷ []) = some v2
pipeline_template_shape template = none

pub data ReviewFindingCategory : Type 0 where
  correctness security plan_deviation test_modification docs style other : ReviewFindingCategory

unfoldable pub review_finding_blocks : ReviewFindingCategory → Bool
review_finding_blocks correctness = true
review_finding_blocks security = true
review_finding_blocks plan_deviation = true
review_finding_blocks category = false
