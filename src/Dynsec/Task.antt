-- ===== src/Dynsec/Task.antt =====
-- The methods of `DynsecService` in `mqttctl/mqttctl-api/src/lib/server/dynsec/service.ts` as actions
-- that change the service's state and may throw, and its one way to the broker,
-- `runDynsecCommand`.
pub mod Keeps
pub mod Sends
pub mod Alike
pub mod Logged
use mqttctl.Prelude.{
  ℕ, ◌≡◌, Text, codes, ◌==◌, ◌++◌, trim, starts_with, is_empty, Bool, true, false, not, ◌&&◌, ◌||◌,
  Option, none, some, List, [], ◌∷◌, map, filter, any, get_last?, eqb, or_else, if◌then◌else◌,
}
use mqttctl.Prelude.Dict.{Dict}
use mqttctl.Prelude.Json.{Json}
use mqttctl.Dynsec.Parse.{Host}
use mqttctl.Dynsec.Credentials.{redact_command_args}

-- What is thrown: an `AppError` by its reason, key, status and the `rollbackError` of its context, with
-- or without a cause, or another exception by its message.
pub data Failure : Type 0 where
  app_error : Text → Text → ℕ → Option Text → Failure
  caused_error : Text → Text → ℕ → Option Text → Failure → Failure
  other_error : Text → Failure

abbrev pub message : Failure → Text
message (app_error reason key status rollback) = reason
message (caused_error reason key status rollback cause) = reason
message (other_error reason) = reason

-- `errorChain`, by its reasons: an `AppError` that is a cause adds its own.
unfoldable pub chain_reasons : Failure → List Text
chain_reasons (app_error reason key status rollback) = reason ∷ []
chain_reasons (caused_error reason key status rollback cause) = reason ∷ chain_reasons cause
chain_reasons (other_error reason) = []

abbrev stated : Option Text → Option Text
stated none = none
stated (some text) = if is_empty text then none else some text

-- The last reason of the chain, where it says something else than the error.
unfoldable nested_reason : Failure → Option Text
unfolding chain_reasons
nested_reason error = elim (stated (get_last? (chain_reasons error))) [
  | none ↦ none
  | some reason ↦ if reason == message error then none else some reason
]

unfoldable pub derive_bootstrap_default_role_error_reason : Failure → Text
unfolding nested_reason
derive_bootstrap_default_role_error_reason (other_error reason) = reason
derive_bootstrap_default_role_error_reason (app_error reason key status rollback) =
    or_else (stated rollback)
      (or_else (nested_reason (app_error reason key status rollback)) reason)
derive_bootstrap_default_role_error_reason (caused_error reason key status rollback cause) =
    let below = derive_bootstrap_default_role_error_reason cause in
    or_else (stated rollback)
      (or_else (nested_reason (caused_error reason key status rollback cause)) below)

-- A command that was sent to the broker, or its entry in the log.
pub record Command : Type 0 where
  pub command : Text
  pub args : List Text

-- An entry of the log: `stderr` is what is meaningful of it, none where nothing is.
pub record LogEntry : Type 0 where
  pub command : Text
  pub exit_code : ℕ
  pub args : List Text
  pub stderr : Option Text
  pub via_agent : Bool

pub data OperationStatus : Type 0 where
  idle : OperationStatus
  running : Text → Text → OperationStatus
  failed : Text → Text → OperationStatus

pub record BootstrapError : Type 0 where
  pub reason : Text
  pub error_key : Option Text

-- The fields of the service, its settings of the database by key, what it has sent to the broker and
-- what it has written to the log, oldest first.
pub record Service : Type 0 where
  pub provisioned_at : Option ℕ
  pub error : Option BootstrapError
  pub status : OperationStatus
  pub settings : Dict Json
  pub sent : List Command
  pub logged : List LogEntry

pub data Result (A : Type 0) : Type 0 where
  ok : A → Result A
  err : Failure → Result A

abbrev pub Task : Type 0 → Type 0
Task A = Service → Result A × Service

module _ {A : Type 0} where
  unfoldable pub pure : A → Task A
  pure a w = (ok a, w)

  unfoldable pub raise : Failure → Task A
  raise e w = (err e, w)

  -- `try { m } catch`: what `m` gives, as a value.
  unfoldable pub attempt : Task A → Task (Result A)
  attempt m w = let (r, w') = m w in (ok r, w')

  unfoldable pub gets : (Service → A) → Task A
  gets f w = (ok (f w), w)

unfoldable pub modify : (Service → Service) → Task (Unit {0})
modify f w = (ok tt, f w)

module _ {A B : Type 0} where
  abbrev continue : Result A → (A → Task B) → Task B
  continue (ok a) f w = f a w
  continue (err e) f w = (err e, w)

  infixl 10 ◌>>=◌ ◌>>◌
  unfoldable pub ◌>>=◌ : Task A → (A → Task B) → Task B
  unfolding pure raise gets modify attempt
  ◌>>=◌ m f w = let (r, w') = m w in continue r f w'

  abbrev pub ◌>>◌ : Task A → Task B → Task B
  m >> n = m >>= λ _. n

-- The parts of the answer of a command that the service reads.
pub record CommandResult : Type 0 where
  pub exit_code : ℕ
  pub stderr : Text

-- What the service is run with: the host, the broker and the clock. The broker's answers may depend
-- on all that was sent to it: `run` is the answer to a command or an exception, and `state` the value
-- that `readDynsecStateRaw` or `JSON.parse` gives for its state, or an exception.
pub record Env : Type 0 where
  pub host : Host
  pub agent_configured : Bool
  pub run : List Command → Text → List Text → Result CommandResult
  pub state : List Command → Result Json
  pub now : ℕ
  pub now_text : Text

extend : ℕ → List Text → List Text
extend c [] = (c ∷ []) ∷ []
extend c (line ∷ lines) = (c ∷ line) ∷ lines

-- `stderr.split(/\r?\n/u)`
unfoldable pub split_lines : Text → List Text
unfolding extend
split_lines [] = [] ∷ []
split_lines (c ∷ s) =
    let rest = split_lines s in
    if eqb c 10
    then [] ∷ rest
    else if eqb c 13 && starts_with (10 ∷ []) s
    then rest
    else extend c rest

abbrev pub benign_lines : List Text
benign_lines =
    codes "Warning: You are running mosquitto_ctrl without encryption."
    ∷ codes
        "This means all of the configuration changes you are making are visible on the network, including passwords."
    ∷ []

unfoldable pub is_meaningful : Text → Bool
is_meaningful line = not (is_empty line) && not (any (λ benign. benign == line) benign_lines)

-- `lines.join('\n')`
unfoldable pub join_lines : List Text → Text
join_lines [] = []
join_lines (line ∷ []) = line
join_lines (line ∷ next ∷ lines) = line ++ 10 ∷ [] ++ join_lines (next ∷ lines)

unfoldable pub extract_meaningful_dynsec_stderr : Text → Text
unfolding split_lines is_meaningful join_lines
extract_meaningful_dynsec_stderr stderr =
    join_lines (filter is_meaningful (map trim (split_lines stderr)))

abbrev pub dynsec_operation_failed : Text
dynsec_operation_failed = codes "DYNSEC_OPERATION_FAILED"

-- The error of a command that has run, `none` where it has done what it was sent for.
unfoldable pub command_failure : Text → CommandResult → Option Failure
unfolding extract_meaningful_dynsec_stderr
command_failure command result =
    let meaningful = extract_meaningful_dynsec_stderr result.stderr in
    if is_empty meaningful
    then if eqb result.exit_code 0
      then none
      else some (
          app_error (codes "mosquitto_ctrl dynsec " ++ command ++ codes " failed.")
            dynsec_operation_failed 500 none)
    else some (
        app_error (codes "mosquitto_ctrl dynsec " ++ command ++ codes " failed: " ++ meaningful)
          dynsec_operation_failed 500 none)

-- What comes back for a command: its result or what is thrown.
unfoldable pub answer : Text → Result CommandResult → Result CommandResult
unfolding command_failure
answer command (err e) = err e
answer command (ok result) = elim (command_failure command result) [
  | none ↦ ok result
  | some e ↦ err e
]

-- A command that runs is logged, one that throws is not.
unfoldable pub log_command :
    Bool → Text → List Text → Result CommandResult → List LogEntry → List LogEntry
unfolding extract_meaningful_dynsec_stderr
log_command via_agent command args (err e) logged = logged
log_command via_agent command args (ok result) logged =
    let meaningful = extract_meaningful_dynsec_stderr result.stderr in
    logged
    ++ (record {
      command = command;
      exit_code = result.exit_code;
      args = redact_command_args command args;
      stderr = if is_empty meaningful then none else some meaningful;
      via_agent = via_agent;
    })
      ∷ []

module _ (env : Env) where
  unfoldable pub run_dynsec_command : Text → List Text → Task CommandResult
  unfolding answer log_command
  run_dynsec_command command args w =
      let ran = env.run w.sent command args in
      (
        answer command ran,
        record w {
          sent = w.sent ++ (record { command = command; args = args }) ∷ [];
          logged = log_command env.agent_configured command args ran w.logged;
        },
      )
