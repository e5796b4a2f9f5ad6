-- ===== src/Sthapathi/CycleErrors.antt =====
-- src/sthapathi/errors.ts: the classes of a cycle's errors, and what each one leads to.
pub mod Causes
pub mod Handles
use shreni.Common.{
  ℕ, String, Option, none, some, List, [], ◌∷◌, ◌++◌, Bool, true, false, ◌&&◌, ◌||◌, eqb, any,
  contains, if◌then◌else◌,
}
use Prim.Native.String.{◌++◌ as append}
use shreni.Kshetra.State.{State, pause_kshetra, record_stall}

pub data AgentErrorKind : Type 0 where
  malformed_output : AgentErrorKind
  api_failure : AgentErrorKind

-- What the code tells apart in an error: its class, and the fields of any other one.
pub data CycleError : Type 0 where
  git_error : CycleError
  agent_error : AgentErrorKind → CycleError
  other_error : (status : Option ℕ) (message code : Option String) → CycleError

pub data ErrorClass : Type 0 where
  api_down : ErrorClass
  agent_failed : ErrorClass
  malformed : ErrorClass
  git_failed : ErrorClass
  unknown : ErrorClass

abbrev pub class_name : ErrorClass → String
class_name api_down = "API_DOWN"
class_name agent_failed = "AGENT_FAILED"
class_name malformed = "MALFORMED_OUTPUT"
class_name git_failed = "GIT_FAILED"
class_name unknown = "UNKNOWN"

abbrev pub is_down_status : Option ℕ → Bool
is_down_status none = false
is_down_status (some s) = any (eqb s) (429 ∷ 502 ∷ 503 ∷ 529 ∷ [])

abbrev pub error_text : Option String → Option String → String
error_text (some message) code = message
error_text none (some code) = code
error_text none none = ""

abbrev pub is_network_text : String → Bool
is_network_text s = contains s "ECONNRESET" || contains s "ETIMEDOUT" || contains s "ENOTFOUND"

unfoldable pub classify_error : CycleError → ErrorClass
unfolding contains
classify_error git_error = git_failed
classify_error (agent_error malformed_output) = malformed
classify_error (agent_error api_failure) = agent_failed
classify_error (other_error status message code) =
    if is_down_status status || is_network_text (error_text message code) then api_down else unknown

-- The calls that handling makes of the tracker, of git and of the operator's feed.
pub data Effect : Type 0 where
  add_note : String → Effect
  flag : String → ErrorClass → Effect
  cleanup_branch : String → Effect
  notify_operator : String → Effect

abbrev pub on_task : Option String → (String → List Effect) → List Effect
on_task none f = []
on_task (some task) f = f task

abbrev pub event_name : ErrorClass → String
event_name api_down = "api_down"
event_name agent_failed = "agent_failed"
event_name malformed = "agent_failed"
event_name git_failed = "git_failed"
event_name unknown = "unknown_error"

abbrev pub task_effects : ErrorClass → String → List Effect
task_effects api_down task = add_note task ∷ cleanup_branch task ∷ []
task_effects agent_failed task = flag task agent_failed ∷ cleanup_branch task ∷ []
task_effects malformed task = flag task malformed ∷ cleanup_branch task ∷ []
task_effects git_failed task = flag task git_failed ∷ []
task_effects unknown task = flag task unknown ∷ cleanup_branch task ∷ []

-- cooldownMs is passed to pauseKshetra, which does not read it.
abbrev pub paused_for : ℕ → String → ErrorClass → String → State → State
paused_for now k api_down message s = pause_kshetra now k false "api_down" message s
paused_for now k agent_failed message s = s
paused_for now k malformed message s = s
paused_for now k git_failed message s = pause_kshetra now k true "git_failed" message s
paused_for now k unknown message s = s

-- The outcome that is recorded: cycle: and the class.
unfoldable pub stall_of : ErrorClass → String
stall_of c = append "cycle:" (class_name c)

-- `message` is the error's. The calls of the tracker are taken to succeed.
unfoldable pub handle_cycle_error :
    ℕ → String → Option String → CycleError → (message : String) → State → State × List Effect
unfolding classify_error stall_of
handle_cycle_error now k task e message s =
    let c = classify_error e in
    (
      paused_for now k c message (record_stall k (stall_of c) s).0,
      on_task task (task_effects c) ++ notify_operator (event_name c) ∷ [],
    )
