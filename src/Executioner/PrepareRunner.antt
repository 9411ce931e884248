-- ===== src/Executioner/PrepareRunner.antt =====
-- execution/prepare_runner.cpp: parse_prepare_steps and execute_prepare. What a step's process does is
-- an argument, a function of the index and the step.
pub mod Runs
use velix.Prelude.{
  ℕ, zero, suc, ℤ, Str, Option, none, some, Bool, true, false, not, if◌then◌else◌, codes, List, [],
  ◌∷◌, ◌++◌, to_string, is_empty,
}
use velix.Executioner.Json.{
  Json, array, text, object, Items, no_items, item, field, value, value_int, is_object,
}
use velix.Executioner.Adapters.{PrepareStep, Outcome, done, refused, thrown, and_then, of_read}

unfoldable pub step_args : ℕ → Items → Outcome (List Str)
unfolding and_then
step_args i no_items = done []
step_args i (item (text s) l) = and_then (step_args i l) (λ (rest : List Str). done (s ∷ rest))
step_args i (item v l) = refused (codes "prepare step arg must be string at index " ++ to_string i)

unfoldable pub args_of : ℕ → Option Json → Outcome (List Str)
unfolding step_args
args_of i none = done []
args_of i (some (array l)) = step_args i l
args_of i (some v) = refused (codes "prepare step args must be array at index " ++ to_string i)

unfoldable pub parse_step : ℤ → ℕ → Json → Outcome PrepareStep
unfolding field value_int and_then args_of
parse_step default_timeout_ms i entry =
    if not (is_object entry)
    then refused (codes "prepare step must be object at index " ++ to_string i)
    else elim (field (codes "command") entry) [
      | some (text command) ↦
          and_then (of_read (value_int (codes "timeout_ms") entry default_timeout_ms))
            (λ (timeout_ms : ℤ).
              and_then (args_of i (field (codes "args") entry)) (λ (args : List Str).
                done record { command = command; args = args; timeout_ms = timeout_ms }))
      | other ↦ refused (codes "prepare step missing command at index " ++ to_string i)
    ]

unfoldable pub parse_from : ℤ → ℕ → Items → Outcome (List PrepareStep)
unfolding and_then parse_step
parse_from default_timeout_ms i no_items = done []
parse_from default_timeout_ms i (item entry l) =
    and_then (parse_step default_timeout_ms i entry) (λ (step : PrepareStep).
      and_then (parse_from default_timeout_ms (suc i) l)
        (λ (steps : List PrepareStep). done (step ∷ steps)))

unfoldable pub parse_prepare_steps : Json → ℤ → Outcome (List PrepareStep)
unfolding value and_then parse_from
parse_prepare_steps manifest default_timeout_ms =
    elim (value (codes "prepare") manifest (array no_items)) [
      | none ↦ thrown
      | some (array l) ↦ parse_from default_timeout_ms 0 l
      | some v ↦ refused (codes "prepare must be an array")
    ]

-- ProcessResult, or the text of the exception.
pub record ProcessResult : Type 0 where
  pub success : Bool
  pub exit_code : ℤ
  pub timed_out : Bool
  pub stdout_content : Str
  pub stderr_content : Str

pub data Ran : Type 0 where
  threw : Str → Ran
  ended : ProcessResult → Ran

-- The answer of execute_prepare, and the lines of the log.
pub data PrepareReply : Type 0 where
  prepared : PrepareReply
  step_exception : ℕ → Str → Str → PrepareReply
  step_failed : ℕ → Str → ProcessResult → PrepareReply

-- The error field of the reply.
abbrev pub reply_error : PrepareReply → Str
reply_error prepared = codes "prepare_failed"
reply_error (step_exception i command what) = codes "prepare_step_exception: " ++ what
reply_error (step_failed i command res) = codes "prepare_step_failed"

pub data LogLine : Type 0 where
  begins : ℕ → Str → LogLine
  exception : Str → LogLine
  output : Str → LogLine
  failed_exit : ℤ → LogLine
  step_ok : ℕ → LogLine

abbrev pub output_line : Str → List LogLine
output_line s = if is_empty s then [] else output s ∷ []

-- One turn of the loop, before the rest of it.
unfoldable pub after_step :
    ℕ → PrepareStep → Ran → PrepareReply × List LogLine → PrepareReply × List LogLine
after_step i step (threw what) rest =
    (step_exception i step.command what, begins i step.command ∷ (exception what ∷ []))
after_step i step (ended res) rest =
    if res.success
    then (rest.0, begins i step.command ∷ (output_line res.stdout_content ++ (step_ok i ∷ rest.1)))
    else (
      step_failed i step.command res,
      begins i step.command ∷ (output_line res.stdout_content ++ (failed_exit res.exit_code ∷ [])),
    )

unfoldable pub execute_from :
    (ℕ → PrepareStep → Ran) → ℕ → List PrepareStep → PrepareReply × List LogLine
unfolding after_step
execute_from run i [] = (prepared, [])
execute_from run i (step ∷ steps) = after_step i step (run i step) (execute_from run (suc i) steps)

unfoldable pub execute_prepare :
    (ℕ → PrepareStep → Ran) → List PrepareStep → PrepareReply × List LogLine
unfolding execute_from
execute_prepare run steps = execute_from run 0 steps
