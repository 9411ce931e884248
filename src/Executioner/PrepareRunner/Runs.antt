-- ===== src/Executioner/PrepareRunner/Runs.antt =====
-- execution/prepare_runner.cpp: which steps execute_prepare runs.
use velix.Prelude.{
  if_known, ℕ, suc, Str, true, false, List, [], ◌∷◌, ◌++◌, ◌≡◌, refl, ap, ◌∙◌, take,
}
use velix.Executioner.Adapters.{PrepareStep}
use velix.Executioner.PrepareRunner.{
  ProcessResult, Ran, threw, ended, PrepareReply, prepared, step_exception, step_failed, LogLine,
  begins, exception, output, failed_exit, step_ok, output_line, after_step, execute_from,
  execute_prepare,
}

-- The commands that the log says were begun.
unfoldable pub begun : List LogLine → List Str
begun [] = []
begun (begins i command ∷ l) = command ∷ begun l
begun (exception what ∷ l) = begun l
begun (output s ∷ l) = begun l
begun (failed_exit n ∷ l) = begun l
begun (step_ok i ∷ l) = begun l

abbrev pub commands : List PrepareStep → List Str
commands [] = []
commands (step ∷ steps) = step.command ∷ commands steps

-- A step that succeeds.
abbrev pub Succeeds : Ran → Type 0
Succeeds (threw what) = ⊥
Succeeds (ended res) = res.success ≡ true

-- All steps succeed, from an index on; or they do up to the one that fails with a reply.
pub data Ends (run : ℕ → PrepareStep → Ran) : ℕ → List PrepareStep → PrepareReply → ℕ → Type 0 where
  all_done : (i : ℕ) → Ends run i [] prepared 0
  goes_on :
      (i : ℕ) (step : PrepareStep) (steps : List PrepareStep) (reply : PrepareReply) (n : ℕ)
      → Succeeds (run i step)
      → Ends run (suc i) steps reply n
      → Ends run i (step ∷ steps) reply (suc n)
  throws :
      (i : ℕ) (step : PrepareStep) (steps : List PrepareStep) (what : Str)
      → run i step ≡ threw what
      → Ends run i (step ∷ steps) (step_exception i step.command what) 1
  fails :
      (i : ℕ) (step : PrepareStep) (steps : List PrepareStep) (res : ProcessResult)
      → run i step ≡ ended res
      → res.success ≡ false
      → Ends run i (step ∷ steps) (step_failed i step.command res) 1

begun-output_line : (s : Str) (l : List LogLine) → begun (output_line s ++ l) ≡ begun l
unfolding begun
begun-output_line [] l = refl
begun-output_line (c ∷ s) l = refl

-- What is proved of the loop: the reply and the steps that were begun.
abbrev pub Replies :
    (ℕ → PrepareStep → Ran) → ℕ → List PrepareStep → PrepareReply × List LogLine → Type 0
Replies run i steps (reply, log) =
    (n : ℕ) × (Ends run i steps reply n × (begun log ≡ take n (commands steps)))

after_step-Replies :
    (run : ℕ → PrepareStep → Ran) (i : ℕ) (step : PrepareStep) (steps : List PrepareStep)
    (ran : Ran) (rest : PrepareReply × List LogLine)
    → run i step ≡ ran
    → Replies run (suc i) steps rest
    → Replies run i (step ∷ steps) (after_step i step ran rest)
unfolding after_step begun
after_step-Replies run i step steps (threw what) rest e h = (1, (throws i step steps what e, refl))
after_step-Replies run i step steps (ended res) rest e h =
    if_known (Replies run i (step ∷ steps)) res.success _ _
      (λ b. (
        suc h.0,
        (
          goes_on i step steps rest.0 h.0 (rw (e) b) h.1.0,
          ap (λ l. step.command ∷ l)
              (begun-output_line res.stdout_content (step_ok i ∷ rest.1) ∙ h.1.1),
        ),
      ))
      (λ b. (
        1,
        (
          fails i step steps res e b,
          ap (λ l. step.command ∷ l)
              (begun-output_line res.stdout_content (failed_exit res.exit_code ∷ [])),
        ),
      ))

execute_from-Replies :
    (run : ℕ → PrepareStep → Ran) (i : ℕ) (steps : List PrepareStep)
    → Replies run i steps (execute_from run i steps)
unfolding execute_from begun
execute_from-Replies run i [] = (0, (all_done i, refl))
execute_from-Replies run i (step ∷ steps) =
    after_step-Replies run i step steps (run i step) (execute_from run (suc i) steps) refl
      (execute_from-Replies run (suc i) steps)

-- The steps run in order up to the first that fails: the reply is ok when every step succeeds, and
-- otherwise it names the first step that throws or fails, with its index; the log begins the steps up
-- to that one and no other.
pub execute_prepare-Replies :
    (run : ℕ → PrepareStep → Ran) (steps : List PrepareStep)
    → Replies run 0 steps (execute_prepare run steps)
unfolding execute_prepare
execute_prepare-Replies run steps = execute_from-Replies run 0 steps
