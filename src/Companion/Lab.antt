-- ===== src/Companion/Lab.antt =====
-- apps/companion/server.py: `apply`, the loop's choice of a pending action, and the gate in front of each
-- call of the robot. The readings of the clock are arguments.
pub mod Epochs
use dogos_memory.Base.{
  Bool, List, Option, [], false, if◌then◌else◌, is_some, none, not, some, true, ℕ, ◌&&◌, ◌++◌, ◌+◌,
  ◌==◌, ◌||◌, ◌∷◌,
}
use dogos_memory.Companion.Engine.{blocked, event, is_inactive, is_weak, last_of}
use dogos_memory.Companion.Models.{
  Action, Companion, Doubles, Event, Observation, failure, pause, preference_set, reset_fault,
  touch,
}
use dogos_memory.Demo.Models.{pending}

module _ (D : Doubles) where
  pub record Lab : Type 0 where
    pub engine : Companion D
    pub epoch : ℕ
    -- `deque(maxlen=4)`, the oldest first
    pub pending : List (ℕ × Action)

  abbrev pub new_lab : Companion D → Lab
  new_lab engine = record { engine = engine; epoch = 0; pending = [] }

  -- `kind in ('pause', 'reset_fault', 'failure', 'preference', 'touch')`
  abbrev pub interrupts : Event D → Bool
  interrupts (preference_set p) = true
  interrupts pause = true
  interrupts reset_fault = true
  interrupts failure = true
  interrupts touch = true
  interrupts _ = false

  abbrev pub pushed : ℕ → List Action → List (ℕ × Action) → List (ℕ × Action)
  pushed epoch [] jobs = jobs
  pushed epoch (action ∷ actions) jobs =
      pushed epoch actions (last_of 4 (jobs ++ (epoch, action) ∷ []))

  abbrev pub interrupted : Lab → Lab
  interrupted lab = record lab { epoch = lab.epoch + 1; pending = [] }

  abbrev pub queued : List Action → Lab → Lab
  queued actions lab = record lab { pending = pushed lab.epoch actions lab.pending }

  -- `apply` once the event has been answered
  abbrev pub apply_answer : Event D → D.value → Lab → Companion D × Option (List Action) → Lab
  apply_answer e later lab (c, none) = record lab { engine = c }
  apply_answer e later lab (c, some actions) =
      let after : Lab = record lab { engine = c } in
      queued actions
        (if interrupts e || is_some (blocked D later c) then interrupted after else after)

  -- `apply`; where the event raises, the engine alone has changed. `later` is read after the event.
  unfoldable pub apply : Event D → D.value → D.value → Lab → Lab
  apply e now later lab = apply_answer e later lab (event D e now lab.engine)

  -- `engine.seen_at = float('-inf')`, where the sensors have no observation
  abbrev pub lose_sight : Lab → Lab
  lose_sight lab = record lab { engine = record lab.engine { seen_at = D.minus_infinity } }

  -- an exception of the loop: what waits is dropped, and the engine fails; its actions are not queued
  unfoldable pub loop_failed : D.value → Lab → Lab
  loop_failed now lab = record lab { engine = (event D failure now lab.engine).0; pending = [] }

  -- the end of the server, which pauses the engine
  unfoldable pub shut_down : D.value → Lab → Lab
  shut_down now lab = record lab { engine = (event D pause now lab.engine).0; pending = [] }

  abbrev pub take_first : List (ℕ × Action) → Lab → Option (ℕ × Action) × Lab
  take_first [] lab = (none, lab)
  take_first (job ∷ others) lab = (
    if not (job.0 == lab.epoch) || is_inactive lab.engine.mode then none else some job,
    record lab { pending = others },
  )

  -- `pending.popleft()`, unless it is out of date or the engine does not run
  unfoldable pub take_item : Lab → Option (ℕ × Action) × Lab
  take_item lab = take_first lab.pending lab

  abbrev pub is_calm : Option (Observation D) → Bool
  is_calm none = false
  is_calm (some o) = not o.busy && not o.charging && not (is_weak D o.battery) && o.present

  -- the guards of `dispatch` with the newest observation: whether the call is made
  unfoldable pub may_dispatch : ℕ × Action → Option (Observation D) → D.value → Lab → Bool
  may_dispatch job latest now lab =
      is_calm latest
      && job.0 == lab.epoch
      && not (is_inactive lab.engine.mode)
      && not (is_some (blocked D now lab.engine))
