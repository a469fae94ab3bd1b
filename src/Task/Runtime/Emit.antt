-- ===== src/Task/Runtime/Emit.antt =====
-- task_runtime.go: Task.emit, by which every event of a Task leaves it.
use tracklogic_agent.Common.{ℕ, ◌+◌, ◌==◌, Text, codes, is_empty, Option, none, some, if◌then◌else◌}
use tracklogic_agent.Types.{GoError, Result, ok, err}
use tracklogic_agent.Exec.{Exec}
use tracklogic_agent.Task.Protocol.{
  Event, EventPayload, Checkpoint, DeliveryMode, best_effort, required_ack,
}
use tracklogic_agent.Task.Runtime.{TaskState, Machine, Environment}

-- `event.Payload.Checkpoint.LastSequence = event.Sequence`, where there is a checkpoint.
abbrev pub stamp_checkpoint : ℕ → Option Checkpoint → Option Checkpoint
stamp_checkpoint n none = none
stamp_checkpoint n (some c) = some (record c { last_sequence = n })

abbrev pub stamp_payload : ℕ → EventPayload → EventPayload
stamp_payload n p = record p { checkpoint = stamp_checkpoint n p.checkpoint }

-- What a failed delivery means to the caller.
abbrev pub delivery_outcome : DeliveryMode → Option GoError → Result (Unit {0})
delivery_outcome best_effort failure = ok tt
delivery_outcome required_ack none = ok tt
delivery_outcome required_ack (some e) = err e

module _ {W : Type 0} (env : Environment W) where
  -- The event as it is delivered; a time of 0 is the zero time.
  unfoldable pub stamp : TaskState → Text → ℕ → Event → Event
  stamp t item now e = record e {
    sequence = t.sequence;
    task_id = t.id;
    item_id = item;
    occurred_at = if e.occurred_at == 0 then now else e.occurred_at;
    payload = stamp_payload t.sequence e.payload;
  }

  abbrev pub item_of : Event → W → Text × W
  item_of e w = if is_empty e.item_id then env.new_id (codes "item") w else (e.item_id, w)

  abbrev pub sent :
      Event
      → TaskState
      → Option (Event → W → Option GoError × W)
      → Text × W
      → Result (Unit {0}) × Machine W
  sent e t none (item, w) = (ok tt, record { task = t; world = w })
  sent e t (some sink) (item, w) =
      let (failure, w') = sink (stamp t item (env.now w) e) w in
      (delivery_outcome e.delivery failure, record { task = t; world = w' })

  unfoldable pub emit : Event → Exec (Machine W) Unit
  unfolding stamp
  emit e s = sent e (record s.task { sequence = s.task.sequence + 1 }) env.sink (item_of e s.world)
