-- ===== src/Companion/Tests.antt =====
-- Concrete runs of apps/companion, with numbers in units of a tenth of a thousandth for the doubles: tests
-- of the model, and the theorems at inputs where their hypotheses hold.
use Prim.Native.Nat.{◌/◌}
use dogos_memory.Base.{
  List, [], false, leb, ltb, none, refl, some, true, ℕ, ◌*◌, ◌+◌, ◌-◌, ◌∷◌, ◌≡◌,
}
use dogos_memory.Companion.Engine.{
  advance, answer, blocked, choose, event, is_inactive, observe, react, tick, tick_budget,
  tick_free, tick_greeting, tick_idle, tick_interacting, tick_inviting,
}
use dogos_memory.Companion.Engine.Bounded.{IsBounded, run_events, run_events-IsBounded}
use dogos_memory.Companion.Engine.Latch.{actions_in, failure-actions_in}
use dogos_memory.Companion.Engine.Welcome.{IsWelcome, event-IsWelcome}
use dogos_memory.Companion.Lab.{Lab, apply, may_dispatch, new_lab, take_item}
use dogos_memory.Companion.Lab.Epochs.{
  IsCurrent, applied, dispatch_interrupted, job_taken, lab_run, lab_run-IsCurrent,
}
use dogos_memory.Companion.Models.{
  Action, Companion, Doubles, Event, Observation, acknowledge, default_config, failure, greet,
  new_companion, observation, other, pause, preference_set, quiet, start, touch,
}

abbrev scaled : Doubles
scaled = record {
  value = ℕ;
  add = λ x y. x + y;
  sub = λ x y. x - y;
  mul = λ x y. x * y / 10000;
  lt = ltb;
  le = leb;
  ratio = λ m n. m * 10000 / n;
  minus_infinity = 0;
}

abbrev seconds : ℕ → ℕ
seconds n = 1000000 + n * 10000

abbrev newcomer : Companion scaled
newcomer = new_companion scaled (default_config scaled) 0 0 none

abbrev someone : Observation scaled
someone = record { present = true; busy = false; charging = false; battery = some 800000 }

abbrev arrival : List (Event scaled × ℕ)
arrival = (start, seconds 0) ∷ (observation someone, seconds 1) ∷ []

abbrev met : Companion scaled
met = run_events scaled arrival newcomer

program : Unit {0}
unfolding event advance react blocked answer tick tick_free tick_budget tick_greeting tick_inviting
    tick_interacting tick_idle choose observe run_events
program = tt

nobody_yet : (run_events scaled ((start, seconds 0) ∷ []) newcomer).mode ≡ quiet
unfolding program
nobody_yet = refl

-- somebody who has stayed for two seconds is greeted
abbrev after_greeting : Companion scaled
after_greeting = (event scaled other (seconds 4) met).0

greeted_once : event scaled other (seconds 4) met ≡ (after_greeting, some (greet ∷ []))
unfolding program
greeted_once = refl

too_early : (event scaled other (seconds 2) met).1 ≡ some []
unfolding program
too_early = refl

answered_touch : (event scaled touch (seconds 5) after_greeting).1 ≡ some (acknowledge ∷ [])
unfolding program
answered_touch = refl

unknown_preference : (event scaled (preference_set none) (seconds 5) met).1 ≡ none
unfolding program
unknown_preference = refl

event-IsWelcome_example :
    IsWelcome scaled (seconds 4) after_greeting
    × (is_inactive after_greeting.mode ≡ false)
    × (◌≡◌ {A = List Action} [] [])
event-IsWelcome_example = event-IsWelcome scaled (seconds 4) other met greeted_once

run_events-IsBounded_example : IsBounded scaled met
run_events-IsBounded_example = run_events-IsBounded scaled (default_config scaled) 0 0 none arrival

failure-actions_in_example :
    actions_in scaled
      ((start, seconds 6) ∷ (touch, seconds 7) ∷ (other, seconds 8) ∷ [])
      (event scaled failure (seconds 5) after_greeting).0
    ≡ []
failure-actions_in_example =
    failure-actions_in scaled after_greeting (seconds 5)
      ((start, seconds 6) ∷ (touch, seconds 7) ∷ (other, seconds 8) ∷ []) (refl, (refl, (refl, tt)))

abbrev lab : Lab scaled
lab = record { engine = after_greeting; epoch = 3; pending = (3, greet) ∷ [] }

abbrev emptied : Lab scaled
emptied = record lab { pending = [] }

greeting_taken : take_item scaled lab ≡ (some (3, greet), emptied)
unfolding program take_item
greeting_taken = refl

dispatched : may_dispatch scaled (3, greet) (some someone) (seconds 5) emptied ≡ true
unfolding program may_dispatch
dispatched = refl

paused_now : (event scaled pause (seconds 5) after_greeting).1 ≡ some []
unfolding program
paused_now = refl

dispatch_interrupted_example :
    may_dispatch scaled
      (3, greet)
      (some someone)
      (seconds 6)
      (lab_run scaled
        (applied other (seconds 6) (seconds 6) ∷ [])
        (apply scaled pause (seconds 5) (seconds 5) emptied))
    ≡ false
unfolding event lab_run
dispatch_interrupted_example =
    dispatch_interrupted scaled lab [] (applied other (seconds 6) (seconds 6) ∷ []) pause
      (seconds 5) (seconds 5) (some someone) (seconds 6) greeting_taken refl refl

lab_run-IsCurrent_example : IsCurrent scaled (
    lab_run scaled
      (applied start (seconds 0) (seconds 0)
        ∷ applied (observation someone) (seconds 1) (seconds 1)
        ∷ applied other (seconds 4) (seconds 4)
        ∷ job_taken
        ∷ [])
      (new_lab scaled newcomer))
lab_run-IsCurrent_example = lab_run-IsCurrent scaled newcomer _
