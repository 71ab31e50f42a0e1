-- ===== src/Choreo/Live/Guarded.antt =====
-- What stood before a command that the live driver of apps/demo_choreo/live.py sends in a step.
use mathlib.Core.Path.{subst}
use dogos_memory.Base.{
  Bool-cases, Option, ap, arith, codes, false, inl, inr, ok, suc, true, ℕ, ◌∙◌, ◌∷◌, ◌≡◌, ◌⊎◌,
}
use dogos_memory.Choreo.Live.{Command, Environment, Live, check_cancelled, is_late}
use dogos_memory.Choreo.Live.Sent.{
  IsKept, IsKept-trans, act-IsQuiet, act-IsSent, check_cancelled-IsQuiet, guard_passes, is_silent,
  then_do_after,
}
use dogos_memory.Choreo.Live.Steps.{act, execute_step}
use dogos_memory.Companion.Models.{Doubles}
use dogos_memory.Value.{Value, get_key}

module _ (D : Doubles) (E : Environment D) where
  -- what stood before a command: no stop was asked for, the deadline had not come, the guard passed
  pub record MaySend (min_battery : ℕ) (deadline : Option D.value) (n : ℕ) : Type 0 where
    pub unstopped : E.stopped n ≡ false
    pub timely : is_late D E (suc n) deadline ≡ false
    pub guarded : guard_passes D E min_battery (suc (suc n)) ≡ true

  check_cancelled-inv :
      (s : Live D) {u : Unit {0}}
      → (check_cancelled D E s).1 ≡ ok u
      → (s.cancelled ≡ false)
        × (E.stopped s.now ≡ false)
        × (is_late D E (suc s.now) s.deadline ≡ false)
        × ((check_cancelled D E s).0.now ≡ suc (suc s.now))
  unfolding check_cancelled
  check_cancelled-inv s h = ground arith

  -- Nothing is sent in a step, or one command of an action that may call the robot.
  abbrev pub IsStep : Value → Live D → Live D → Type 0
  IsStep step s s' =
      IsKept D E s s'
      × ((s'.sent ≡ s.sent)
          ⊎ ((command : Command) × (s'.sent ≡ command ∷ s.sent)
              × (is_silent D E (get_key (codes "action") step) ≡ false)
              × (s.cancelled ≡ false)
              × MaySend s.min_battery s.deadline s.now))

  -- after `_check_cancelled` has let the step go on
  act-IsStep :
      (step : Value) (s : Live D) {u : Unit {0}}
      → (check_cancelled D E s).1 ≡ ok u
      → IsStep step s
          (act D E
            (get_key (codes "action") step)
            (get_key (codes "args") step)
            (check_cancelled D E s).0).0
  act-IsStep step s e =
      let (same, kept) = check_cancelled-IsQuiet D E s in
      let t = (check_cancelled D E s).0 in
      let action = get_key (codes "action") step in
      let args = get_key (codes "args") step in
      let u = (act D E action args t).0 in
      elim (Bool-cases (is_silent D E action)) [
        | inl h ↦
            let (sent, kept') = act-IsQuiet D E action args t h in
            (IsKept-trans D E s t u kept kept', inl (sent ∙ same))
        | inr h ↦ elim (act-IsSent D E action args t) [
          | inl (sent, kept') ↦ (IsKept-trans D E s t u kept kept', inl (sent ∙ same))
          | inr (command, sent, kept', passes) ↦
              let (on, unstopped, timely, now) = check_cancelled-inv s e in
              let guarded : guard_passes D E s.min_battery (suc (suc s.now)) ≡ true =
                subst (λ n. guard_passes D E s.min_battery n ≡ true) now
                  (subst (λ b. guard_passes D E b t.now ≡ true) kept.0 passes) in
              let may : MaySend s.min_battery s.deadline s.now = record {
                unstopped = unstopped;
                timely = timely;
                guarded = guarded;
              } in
              (
                IsKept-trans D E s t u kept kept',
                inr (command, sent ∙ ap (λ cs. command ∷ cs) same, h, on, may),
              )
        ]
      ]

  -- A step of the live driver sends nothing, or one command, a call of the client. Where it sends
  -- one, its action is neither `wait` nor `native_dag`, no stop was requested, and at the readings of
  -- this step the stop event was not set, the deadline had not come and the guard, if there is one,
  -- passed. The battery that is asked for, the deadline and the stop are left as they are.
  pub execute_step-IsStep : (step : Value) (s : Live D) → IsStep step s (execute_step D E step s).0
  unfolding execute_step
  execute_step-IsStep step s =
      let (same, kept) = check_cancelled-IsQuiet D E s in
      then_do_after D E (IsStep step s) (check_cancelled D E s) _ (kept, inl same)
        (λ a e. act-IsStep step s e)
