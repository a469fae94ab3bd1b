-- ===== src/Tests/Models.antt =====
-- Calls of a model under the policies.
use tracklogic_agent.Common.{
  ◌≡◌, ◌≤◌, ◌<◌, ◌+◌, ◌⊎◌, refl, codes, [], ◌∷◌, none, some, false, insert, arith, lookup, text_eq,
  pos,
}
use tracklogic_agent.Types.{new_error, circuit_open, ok, err}
use tracklogic_agent.Model.{InvokeRequest}
use tracklogic_agent.Engine.Circuit.{closed, opened, circuit_of, allow}
use tracklogic_agent.Engine.Policy.{
  invoke_with_policy, attempts, after_call, invoke_model, allow_call, finish_call,
}
use tracklogic_agent.Engine.Policy.Attempts.{Counts, is_ok, invoke_with_policy_calls}
use tracklogic_agent.Engine.Policy.Outcome.{response_closes_circuit, open_circuit_refuses}
use tracklogic_agent.Tests.World.{World, fresh, asking, runtime}

abbrev request : InvokeRequest
request = record {
  messages = [];
  tools = [];
  temperature = pos 0;
  max_tokens = pos 10;
  stream = false;
}

counted : Counts runtime (λ (w : World). w.calls)
counted = record {
  emitted = λ e w. refl;
  slept = λ d w. refl;
  stored = λ m w. refl;
  invoked = λ r w. refl;
  streamed = λ r w. refl;
}

invoke_with_policy_calls_example :
    let out = invoke_with_policy runtime none request fresh in
    (0 ≤ out.1.calls) × (out.1.calls ≤ 0 + 3) × ((is_ok out.0 ≡ false) ⊎ (0 < out.1.calls))
invoke_with_policy_calls_example =
    invoke_with_policy_calls runtime (λ (w : World). w.calls) counted none request fresh tt

abbrev done : World
done = (invoke_with_policy runtime none request fresh).1

responded : invoke_with_policy runtime none request fresh ≡ (ok (some asking), done)
unfolding invoke_with_policy attempts after_call invoke_model allow_call finish_call allow
    circuit_of lookup
responded = refl

response_closes_circuit_example :
    ((circuit_of (codes "mock") done.circuits).phase ≡ closed)
    × ((circuit_of (codes "mock") done.circuits).failures ≡ 0)
response_closes_circuit_example =
    response_closes_circuit runtime (λ m w. refl) none request fresh done (some asking) refl
      responded

abbrev tripped : World
tripped = record fresh {
  circuits = record {
    circuits =
        (codes "mock", record { phase = opened; failures = 2; opened_at = 0; half_open_run = 0 })
        ∷ [];
  };
}

is_tripped : (circuit_of (codes "mock") tripped.circuits).phase ≡ opened
unfolding circuit_of lookup text_eq
is_tripped = refl

too_early : 0 < (circuit_of (codes "mock") tripped.circuits).opened_at + 100
unfolding circuit_of lookup text_eq
too_early = omega arith

open_circuit_refuses_example :
    let out = invoke_with_policy runtime none request tripped in
    (out.0 ≡ err (new_error circuit_open (codes "model circuit is open")))
    × (out.1 ≡ record tripped {
      circuits = record {
        circuits =
            insert
              (codes "mock")
              (circuit_of (codes "mock") tripped.circuits)
              tripped.circuits.circuits;
      };
    })
    × (circuit_of (codes "mock") out.1.circuits ≡ circuit_of (codes "mock") tripped.circuits)
open_circuit_refuses_example =
    open_circuit_refuses runtime (λ m w. refl) none request tripped refl is_tripped too_early
