-- ===== src/Engine/Circuit/Invariant.antt =====
-- What holds of every circuit of engine/reliability.go, after any calls at all.
use tracklogic_agent.Common.{
  ◌⊎◌, Bool, true, false, ℕ, ◌≤◌, ◌<◌, ◌≡◌, ◌⊎◌, inl, inr, Bool-cases, true, false, Bool, Text,
  text_eq, List, [], ◌∷◌, lookup, insert, lookup-insert, arith, if◌then◌else◌,
}
use tracklogic_agent.Task.Config.{CircuitConfig}
use tracklogic_agent.Task.Config.Normal.{IsCircuit}
use tracklogic_agent.Engine.Circuit.{
  CircuitState, CircuitPhase, CircuitOutcome, closed, neutral, success, failure, new_circuit,
  allow_state, finish_state, ReliabilityManager, new_manager, circuit_of, Ticket, allow, finish,
}

abbrev pub is_closed : CircuitPhase → Bool
is_closed closed = true
is_closed _ = false

-- The probe count stays within its limit, and a closed circuit is below the failure threshold.
pub record IsSound (c : CircuitConfig) (s : CircuitState) : Type 0 where
  pub probes : s.half_open_run ≤ c.half_open_max
  pub trips : (is_closed s.phase ≡ false) ⊎ (s.failures < c.failure_threshold)

pub new_circuit-IsSound : (c : CircuitConfig) → IsCircuit c → IsSound c new_circuit
new_circuit-IsSound c h = ground arith

pub allow_state-IsSound :
    (c : CircuitConfig) (now : ℕ) (s : CircuitState)
    → IsSound c s
    → IsSound c (allow_state c now s).1
unfolding allow_state
allow_state-IsSound c now s v = ground arith

pub finish_state-IsSound :
    (c : CircuitConfig) (now : ℕ) (phase : CircuitPhase) (o : CircuitOutcome) (s : CircuitState)
    → IsCircuit c
    → IsSound c s
    → IsSound c (finish_state c now phase o s)
unfolding finish_state
finish_state-IsSound c now phase neutral s h v = ground arith
finish_state-IsSound c now phase success s h v = ground arith
finish_state-IsSound c now phase failure s h v = ground arith

-- Every circuit that the manager holds is sound; a key without a circuit stands for a new one.
abbrev pub AreSound : CircuitConfig → ReliabilityManager → Type 0
AreSound c m = (key : Text) → IsSound c (circuit_of key m)

pub circuit_of-insert :
    (k key : Text) (s : CircuitState) (m : ReliabilityManager)
    → circuit_of k (record { circuits = insert key s m.circuits })
      ≡ (if text_eq key k then s else circuit_of k m)
unfolding circuit_of
circuit_of-insert k key s m = ground (arith, lookup-insert key k s m.circuits)

insert-AreSound :
    (c : CircuitConfig) (m : ReliabilityManager) (key : Text) (s : CircuitState)
    → IsSound c s
    → AreSound c m
    → AreSound c (record { circuits = insert key s m.circuits })
insert-AreSound c m key s v vs k =
    rw (circuit_of-insert k key s m)
      (elim (Bool-cases (text_eq key k)) [ inl hit ↦ rw hit v | inr miss ↦ rw miss (vs k) ])

-- A call of the manager, with the time at which it is made.
pub data Call : Type 0 where
  allows : Text → ℕ → Call
  finishes : Ticket → CircuitOutcome → ℕ → Call

abbrev pub perform : CircuitConfig → Call → ReliabilityManager → ReliabilityManager
perform c (allows key now) m = (allow key c now m).1
perform c (finishes t o now) m = (finish c now o t m).1

abbrev pub perform_all : CircuitConfig → List Call → ReliabilityManager → ReliabilityManager
perform_all c [] m = m
perform_all c (call ∷ calls) m = perform_all c calls (perform c call m)

allow-AreSound :
    (c : CircuitConfig) (key : Text) (now : ℕ) (m : ReliabilityManager)
    → AreSound c m
    → AreSound c (allow key c now m).1
unfolding allow
allow-AreSound c key now m vs =
    insert-AreSound c m key _ (allow_state-IsSound c now (circuit_of key m) (vs key)) vs

finish-AreSound :
    (c : CircuitConfig) (t : Ticket) (o : CircuitOutcome) (now : ℕ) (m : ReliabilityManager)
    → IsCircuit c
    → AreSound c m
    → AreSound c (finish c now o t m).1
unfolding finish
finish-AreSound c t o now m h vs = elim (Bool-cases t.used) [
  | inl spent ↦ rw spent vs
  | inr fresh ↦ rw fresh (
      insert-AreSound c m t.key _
        (finish_state-IsSound c now t.phase o (circuit_of t.key m) h (vs t.key)) vs)
]

perform-AreSound :
    (c : CircuitConfig) (call : Call) (m : ReliabilityManager)
    → IsCircuit c
    → AreSound c m
    → AreSound c (perform c call m)
perform-AreSound c (allows key now) m h vs = allow-AreSound c key now m vs
perform-AreSound c (finishes t o now) m h vs = finish-AreSound c t o now m h vs

-- With normalized settings, after any calls on a manager whose circuits are so, with any tickets,
-- outcomes and times, no circuit counts more probes than the
-- settings allow, and no circuit is closed at or above the failure threshold.
pub perform_all-AreSound :
    (c : CircuitConfig) (calls : List Call) (m : ReliabilityManager)
    → IsCircuit c
    → AreSound c m
    → AreSound c (perform_all c calls m)
perform_all-AreSound c [] m h vs = vs
perform_all-AreSound c (call ∷ calls) m h vs =
    perform_all-AreSound c calls (perform c call m) h (perform-AreSound c call m h vs)

pub new_manager-AreSound : (c : CircuitConfig) → IsCircuit c → AreSound c new_manager
unfolding circuit_of lookup
new_manager-AreSound c h key = new_circuit-IsSound c h
