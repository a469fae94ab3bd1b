-- ===== src/Engine/Circuit.antt =====
-- engine/reliability.go: the circuit breaker of a model instance. The manager's map of circuits is
-- keyed by modelInstanceKey; its clock is an argument of the calls that read it. What `allow`
-- returns in Go is a closure that runs once; here it is a ticket with the closure's variables.
pub mod Invariant
pub mod Behaviour
use tracklogic_agent.Common.{
  ℕ, ◌+◌, ◌-◌, Bool, true, false, ◌&&◌, ◌||◌, Text, codes, Option, none, some, if◌then◌else◌, ltb,
  leb, Dict, lookup, insert, [],
}
use tracklogic_agent.Types.{GoError, new_error, circuit_open, Result, ok, err}
use tracklogic_agent.Task.Config.{CircuitConfig}

pub data CircuitPhase : Type 0 where
  closed opened half_open : CircuitPhase

pub record CircuitState : Type 0 where
  pub phase : CircuitPhase
  pub failures : ℕ
  pub opened_at : ℕ
  pub half_open_run : ℕ

pub data CircuitOutcome : Type 0 where
  neutral success failure : CircuitOutcome

abbrev pub new_circuit : CircuitState
new_circuit = record { phase = closed; failures = 0; opened_at = 0; half_open_run = 0 }

abbrev pub is_open : CircuitPhase → Bool
is_open opened = true
is_open _ = false

abbrev pub is_half_open : CircuitPhase → Bool
is_half_open half_open = true
is_half_open _ = false

-- The second half of `allow`: a half-open circuit counts its probes.
unfoldable pub admit : CircuitConfig → CircuitState → Result CircuitPhase × CircuitState
admit config s =
    if is_half_open s.phase
    then (if leb config.half_open_max s.half_open_run
        then (err (new_error circuit_open (codes "model circuit probe is already running")), s)
        else (ok s.phase, record s { half_open_run = s.half_open_run + 1 }))
    else (ok s.phase, s)

-- `allow` on the state of one circuit: the phase that the closure captures, or the refusal.
unfoldable pub allow_state : CircuitConfig → ℕ → CircuitState → Result CircuitPhase × CircuitState
unfolding admit
allow_state config now s =
    if is_open s.phase
    then (if ltb now (s.opened_at + config.open_duration)
        then (err (new_error circuit_open (codes "model circuit is open")), s)
        else admit config (record s { phase = half_open; half_open_run = 0 }))
    else admit config s

abbrev release_probe : CircuitPhase → CircuitState → CircuitState
release_probe phase s =
    if is_half_open phase && ltb 0 s.half_open_run
    then record s { half_open_run = s.half_open_run - 1 }
    else s

-- The body of the closure, `phase` being the phase at the time of `allow`.
unfoldable pub finish_state :
    CircuitConfig → ℕ → CircuitPhase → CircuitOutcome → CircuitState → CircuitState
finish_state config now phase neutral s = release_probe phase s
finish_state config now phase success s = record (release_probe phase s) {
  phase = closed;
  failures = 0;
  opened_at = 0;
}
finish_state config now phase failure s =
    let r = release_probe phase s in
    let failed = record r { failures = r.failures + 1 } in
    if is_half_open phase || leb config.failure_threshold failed.failures
    then record failed { phase = opened; opened_at = now }
    else failed

-- ReliabilityManager: the circuits of the model instances.
pub record ReliabilityManager : Type 0 where
  pub circuits : Dict CircuitState

abbrev pub new_manager : ReliabilityManager
new_manager = record { circuits = [] }

pub record Ticket : Type 0 where
  pub key : Text
  pub phase : CircuitPhase
  pub used : Bool

unfoldable pub circuit_of : Text → ReliabilityManager → CircuitState
circuit_of key m = elim (lookup key m.circuits) [ none ↦ new_circuit | some s ↦ s ]

abbrev pub ticket_of : Text → Result CircuitPhase → Result Ticket
ticket_of key (ok phase) = ok (record { key = key; phase = phase; used = false })
ticket_of key (err e) = err e

unfoldable pub allow :
    Text → CircuitConfig → ℕ → ReliabilityManager → Result Ticket × ReliabilityManager
unfolding allow_state
allow key config now m =
    let (result, s) = allow_state config now (circuit_of key m) in
    (ticket_of key result, record { circuits = insert key s m.circuits })

-- once.Do: a ticket that is used already changes nothing.
unfoldable pub finish :
    CircuitConfig → ℕ → CircuitOutcome → Ticket → ReliabilityManager → Ticket × ReliabilityManager
unfolding finish_state
finish config now outcome t m = if t.used then (t, m) else (
  record t { used = true },
  record {
    circuits =
        insert t.key (finish_state config now t.phase outcome (circuit_of t.key m)) m.circuits;
  },
)
