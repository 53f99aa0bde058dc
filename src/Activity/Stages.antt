-- ===== src/Activity/Stages.antt =====
-- src/server/agents/runtime/derive.ts: `toolCallActivity` and `approvedToolActivity`, which put a fixed
-- label on a tool call, and `phaseStageFromActivity`, which maps such a label to the stage of a phase.
-- A `switch` on texts is a table of its cases.
use nexus_seventeen.Prelude.{
  ℕ, Bool, true, false, ◌&&◌, ◌||◌, List, [], ◌∷◌, map, Option, none, some, Text, lit, any, leb,
  ◌+◌, if◌then◌else◌, ◌==◌, eq_text, text_eq, eq_nat, Bool-cases, ◌≡◌, refl, inl, inr,
}
use native.Mathlib.Omega.{arith}
use Prim.Native.String.{String}

-- `TASK_PHASE_STAGES` without `done`.
pub data PhaseStage : Type 0 where
  research planning execution testing review : PhaseStage

pub record Case {ℓ} (A : Type ℓ) : Type ℓ where
  pub labels : List Text
  pub value : A

-- `toLowerCase`, as far as its result can be an ASCII text: the Kelvin sign is the one unit outside
-- ASCII that becomes a letter.
abbrev lower_unit : ℕ → ℕ
lower_unit c = if leb b'A' c && leb c b'Z' then c + 32 else if c == 0x212A then b'k' else c

unfoldable pub to_lower_case : Text → Text
to_lower_case t = map lower_unit t

unfoldable pub switch {ℓ} : {A : Type ℓ} → Text → List (Case A) → A → A
unfolding any
switch key [] default = default
switch key (c ∷ rest) default =
    if any (λ l. key == l) c.labels then c.value else switch key rest default

abbrev pub case {ℓ} : {A : Type ℓ} → List String → A → Case A
case labels value = record { labels = map lit labels; value = value }

abbrev pub approved_tools : List (Case Text)
unfolding lit
approved_tools =
    case ("bash" ∷ "shell" ∷ []) (lit "Running a development check.")
    ∷ case ("read" ∷ "glob" ∷ "grep" ∷ []) (lit "Inspecting the relevant code and context.")
    ∷ case ("edit" ∷ "write" ∷ "notebookedit" ∷ []) (lit "Updating the implementation.")
    ∷ case ("webfetch" ∷ "websearch" ∷ []) (lit "Researching relevant information.")
    ∷ case ("todowrite" ∷ "enterplanmode" ∷ "exitplanmode" ∷ [])
        (lit "Preparing the implementation plan.")
    ∷ case ("task" ∷ "agent" ∷ []) (lit "Delegating a focused investigation.")
    ∷ case ("skill" ∷ []) (lit "Applying the configured development workflow.")
    ∷ case ("askuserquestion" ∷ []) (lit "Preparing a focused question for human input.")
    ∷ []

abbrev pub unknown_tool : Text
unfolding lit
unknown_tool = lit "Using an approved development tool."

-- `approvedToolActivity`
unfoldable pub approved_tool_activity : Text → Text
unfolding switch to_lower_case
approved_tool_activity name = switch (to_lower_case name) approved_tools unknown_tool

abbrev pub tool_calls : List (Case Text)
unfolding lit
tool_calls =
    case ("work" ∷ []) (lit "Work started.")
    ∷ case ("reasoning" ∷ []) (lit "Reviewing the task and choosing the next safe step.")
    ∷ case ("todo_list" ∷ "plan" ∷ []) (lit "Preparing the implementation plan.")
    ∷ case ("command" ∷ []) (lit "Running a development check.")
    ∷ case ("file_change" ∷ []) (lit "Updating the implementation.")
    ∷ case ("web_search" ∷ []) (lit "Researching relevant information.")
    ∷ case ("mcp_tool_call" ∷ "tool_call" ∷ "collaboration_tool_call" ∷ [])
        (lit "Gathering information with an approved tool.")
    ∷ []

abbrev pub container_steps : List (Case Text)
unfolding lit
container_steps =
    case ("container_starting" ∷ []) (lit "Task container starting")
    ∷ case ("container_attached" ∷ []) (lit "Task container attached")
    ∷ case ("container_teardown" ∷ []) (lit "Task container teardown")
    ∷ []

-- `toolCallActivity`, whose case for "progress" reads the detail.
unfoldable pub tool_call_activity : Text → Text → Text
unfolding switch to_lower_case approved_tool_activity lit
tool_call_activity name detail =
    let key = to_lower_case name in
    switch key tool_calls (
      if key == lit "progress"
      then approved_tool_activity detail
      else switch key container_steps (approved_tool_activity name))

abbrev pub stage_labels : List (Case (Option PhaseStage))
unfolding lit
stage_labels =
    case
      ("Agent process started." ∷ "Work started."
        ∷ "Reviewing the task and choosing the next safe step."
        ∷ "Researching relevant information." ∷ "Relevant research was gathered."
        ∷ "Gathering information with an approved tool." ∷ "Information gathering completed."
        ∷ "Inspecting the relevant code and context." ∷ "Delegating a focused investigation."
        ∷ "Applying the configured development workflow." ∷ [])
      (some research)
    ∷ case ("Preparing the implementation plan." ∷ "Prepared the implementation plan." ∷ [])
        (some planning)
    ∷ case ("Updating the implementation." ∷ "Updated the implementation." ∷ []) (some execution)
    ∷ case
        ("Running a development check." ∷ "A development check completed."
          ∷ "A development check found more work." ∷ "A development step found more work." ∷ [])
        (some testing)
    ∷ case
        ("Work finished; preparing the recorded result."
          ∷ "Preparing a focused question for human input." ∷ [])
        (some review)
    ∷ []

-- `phaseStageFromActivity`
unfoldable pub phase_stage_from_activity : Text → Option PhaseStage
unfolding switch
phase_stage_from_activity activity = switch activity stage_labels none

-- The labels that say nothing of a phase: an unknown tool, and the steps of a container.
abbrev pub unstaged_activities : List Text
unfolding lit
unstaged_activities =
    unknown_tool
    ∷ lit "Task container starting"
    ∷ lit "Task container attached"
    ∷ lit "Task container teardown"
    ∷ []

abbrev is_stage : Option PhaseStage → Bool
is_stage none = false
is_stage (some stage) = true

abbrev is_placed : Text → Bool
is_placed activity =
    is_stage (phase_stage_from_activity activity) || any (λ a. a == activity) unstaged_activities

abbrev all_cases : {A : Type 0} → (A → Bool) → List (Case A) → Bool
all_cases p [] = true
all_cases p (c ∷ rest) = p c.value && all_cases p rest

switch-all :
    {A : Type 0} (p : A → Bool) (key : Text) (cases : List (Case A)) (default : A)
    → all_cases p cases ≡ true
    → p default ≡ true
    → p (switch key cases default) ≡ true
unfolding switch
switch-all p key [] default h d = d
switch-all p key (c ∷ rest) default h d = elim (Bool-cases (any (λ l. key == l) c.labels)) [
  | inl t ↦ ground (arith, t, h)
  | inr f ↦
      let rest_holds : all_cases p rest ≡ true = ground (arith, h) in
      let ih = switch-all p key rest default rest_holds d in ground (arith, f, ih)
]

approved_tool_activity-is_placed : (name : Text) → is_placed (approved_tool_activity name) ≡ true
unfolding approved_tool_activity phase_stage_from_activity approved_tools text_eq
approved_tool_activity-is_placed name =
    switch-all is_placed (to_lower_case name) approved_tools unknown_tool refl refl

tool_call_activity-is_placed :
    (name detail : Text) → is_placed (tool_call_activity name detail) ≡ true
unfolding tool_call_activity phase_stage_from_activity lit text_eq
tool_call_activity-is_placed name detail =
    let key = to_lower_case name in
    let last : is_placed (switch key container_steps (approved_tool_activity name)) ≡ true =
      switch-all is_placed key container_steps (approved_tool_activity name) refl
        (approved_tool_activity-is_placed name) in
    let middle : is_placed (
          if key == lit "progress"
          then approved_tool_activity detail
          else switch key container_steps (approved_tool_activity name))
        ≡ true =
      elim (Bool-cases (key == lit "progress")) [
        | inl t ↦ ground (arith, t, approved_tool_activity-is_placed detail)
        | inr f ↦ ground (arith, f, last)
      ] in
    switch-all is_placed key tool_calls _ refl middle

stage_of :
    (stage : Option PhaseStage)
    → is_stage stage ≡ true
    → (found : PhaseStage) × (stage ≡ some found)
stage_of none e = cc
stage_of (some found) e = (found, refl)

-- The label of a tool call is the label of a phase's stage, whatever the tool and its detail, unless it
-- is the label of an unknown tool or of a step of the container.
pub tool_call_activity-stage :
    (name detail : Text)
    → any (λ a. a == tool_call_activity name detail) unstaged_activities ≡ false
    → (stage : PhaseStage) × (phase_stage_from_activity (tool_call_activity name detail)
        ≡ some stage)
tool_call_activity-stage name detail h =
    let e = tool_call_activity-is_placed name detail in
    stage_of (phase_stage_from_activity (tool_call_activity name detail)) (ground (arith, e, h))
