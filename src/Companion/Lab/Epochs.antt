-- ===== src/Companion/Lab/Epochs.antt =====
-- What an interruption does to the actions that wait or are being carried out.
use dogos_memory.Base.{
  All, List, Option, [], arith, false, if_intro, if◌then◌else◌, is_some, length, ltb, none, refl,
  some, true, ℕ, ◌++◌, ◌+◌, ◌<◌, ◌||◌, ◌∷◌, ◌≡◌, ◌≤◌,
}
use dogos_memory.Companion.Engine.{blocked, event, last_of}
use dogos_memory.Companion.Engine.Bounded.{length-last_of}
use dogos_memory.Companion.Lab.{
  Lab, apply, apply_answer, interrupted, interrupts, loop_failed, lose_sight, may_dispatch, new_lab,
  pushed, queued, shut_down, take_first, take_item,
}
use dogos_memory.Companion.Models.{Action, Companion, Doubles, Event, Observation}

module _ (D : Doubles) where
  -- what happens to the laboratory under its lock: a call of `apply` with its two readings of the clock,
  -- sensors without an observation, the loop's choice of an action, an exception of the loop, and the
  -- end of the server
  pub data Happening : Type 0 where
    applied : Event D → D.value → D.value → Happening
    sight_lost job_taken : Happening
    loop_raised server_ended : D.value → Happening

  abbrev pub lab_step : Happening → Lab D → Lab D
  lab_step (applied e now later) lab = apply D e now later lab
  lab_step sight_lost lab = lose_sight D lab
  lab_step job_taken lab = (take_item D lab).1
  lab_step (loop_raised now) lab = loop_failed D now lab
  lab_step (server_ended now) lab = shut_down D now lab

  unfoldable pub lab_run : List Happening → Lab D → Lab D
  lab_run [] lab = lab
  lab_run (h ∷ hs) lab = lab_run hs (lab_step h lab)

  apply_answer-epoch_le :
      (e : Event D) (later : D.value) (lab : Lab D) (answered : Companion D × Option (List Action))
      → lab.epoch ≤ (apply_answer D e later lab answered).epoch
  apply_answer-epoch_le e later lab (c, none) = omega arith
  apply_answer-epoch_le e later lab (c, some actions) = ground arith

  apply-epoch_le :
      (e : Event D) (now later : D.value) (lab : Lab D)
      → lab.epoch ≤ (apply D e now later lab).epoch
  unfolding apply
  apply-epoch_le e now later lab = apply_answer-epoch_le e later lab (event D e now lab.engine)

  lab_step-epoch_le : (h : Happening) (lab : Lab D) → lab.epoch ≤ (lab_step h lab).epoch
  unfolding take_item loop_failed shut_down
  lab_step-epoch_le (applied e now later) lab = apply-epoch_le e now later lab
  lab_step-epoch_le sight_lost lab = omega arith
  lab_step-epoch_le job_taken lab = ground arith
  lab_step-epoch_le (loop_raised now) lab = omega arith
  lab_step-epoch_le (server_ended now) lab = omega arith

  lab_run-epoch_le : (hs : List Happening) (lab : Lab D) → lab.epoch ≤ (lab_run hs lab).epoch
  unfolding lab_run
  lab_run-epoch_le [] lab = omega arith
  lab_run-epoch_le (h ∷ hs) lab =
      omega (arith, lab_step-epoch_le h lab, lab_run-epoch_le hs (lab_step h lab))

  apply-interrupts :
      (e : Event D) (now later : D.value) (lab : Lab D) {c : Companion D} {actions : List Action}
      → event D e now lab.engine ≡ (c, some actions)
      → interrupts D e ≡ true
      → (apply D e now later lab).epoch ≡ lab.epoch + 1
  unfolding apply
  apply-interrupts e now later lab h i = rw h (ground arith)

  take_item-epoch :
      (lab : Lab D) {job : ℕ × Action} {rest : Lab D}
      → take_item D lab ≡ (some job, rest)
      → (job.0 ≡ lab.epoch) × (rest.epoch ≡ lab.epoch)
  unfolding take_item
  take_item-epoch lab h = ground arith

  may_dispatch-epoch_ne :
      (job : ℕ × Action) (latest : Option (Observation D)) (now : D.value) (lab : Lab D)
      → job.0 < lab.epoch
      → may_dispatch D job latest now lab ≡ false
  unfolding may_dispatch
  may_dispatch-epoch_ne job latest now lab h = ground arith

  -- Once a pause, a fault's confirmation, a failure, a preference or a touch has been applied, no call is
  -- made any more for an action that the loop had taken before, whatever happened in between and
  -- happens after.
  pub dispatch_interrupted :
      (lab : Lab D) {job : ℕ × Action} {rest : Lab D} (before after : List Happening) (e : Event D)
      (now later : D.value) {c : Companion D} {actions : List Action}
      (latest : Option (Observation D)) (at : D.value)
      → take_item D lab ≡ (some job, rest)
      → event D e now (lab_run before rest).engine ≡ (c, some actions)
      → interrupts D e ≡ true
      → may_dispatch D job latest at (lab_run after (apply D e now later (lab_run before rest)))
        ≡ false
  dispatch_interrupted lab {job} {rest} before after e now later latest at t h i =
      let ended = apply D e now later (lab_run before rest) in
      may_dispatch-epoch_ne job latest at (lab_run after ended) (
        omega (
          arith,
          take_item-epoch lab t,
          lab_run-epoch_le before rest,
          apply-interrupts e now later (lab_run before rest) h i,
          lab_run-epoch_le after ended,
        ))

  -- the actions that wait were chosen in the current epoch, and are at most four
  pub record IsCurrent (lab : Lab D) : Type 0 where
    pub current : All (λ job. job.0 ≡ lab.epoch) lab.pending
    pub few : length lab.pending ≤ 4

  All-last_of :
      (P : ℕ × Action → Type 0) (n : ℕ) (xs : List (ℕ × Action)) → All P xs → All P (last_of n xs)
  All-last_of P n [] h = tt
  All-last_of P n (x ∷ xs) h = if_intro (All P) (ltb (length xs) n) h (All-last_of P n xs h.1)

  All-snoc :
      (P : ℕ × Action → Type 0) (xs : List (ℕ × Action)) {x : ℕ × Action}
      → All P xs
      → P x
      → All P (xs ++ x ∷ [])
  All-snoc P [] h p = (p, tt)
  All-snoc P (y ∷ xs) (q, h) p = (q, All-snoc P xs h p)

  pushed-current :
      (epoch : ℕ) (actions : List Action) (jobs : List (ℕ × Action))
      → All (λ job. job.0 ≡ epoch) jobs
      → length jobs ≤ 4
      → All (λ job. job.0 ≡ epoch) (pushed D epoch actions jobs)
        × (length (pushed D epoch actions jobs) ≤ 4)
  pushed-current epoch [] jobs h n = (h, n)
  pushed-current epoch (action ∷ actions) jobs h n =
      let longer = jobs ++ (epoch, action) ∷ [] in
      pushed-current epoch actions (last_of 4 longer)
        (All-last_of (λ job. job.0 ≡ epoch) 4 longer (All-snoc (λ job. job.0 ≡ epoch) jobs h refl))
        (length-last_of 4 longer)

  queued-IsCurrent :
      (actions : List Action) (lab : Lab D) → IsCurrent lab → IsCurrent (queued D actions lab)
  queued-IsCurrent actions lab h =
      let (p, q) = pushed-current lab.epoch actions lab.pending h.current h.few in
      record { current = p; few = q }

  apply_answer-IsCurrent :
      (e : Event D) (later : D.value) (lab : Lab D) (answered : Companion D × Option (List Action))
      → IsCurrent lab
      → IsCurrent (apply_answer D e later lab answered)
  apply_answer-IsCurrent e later lab (c, none) h = ground arith
  apply_answer-IsCurrent e later lab (c, some actions) h =
      let after : Lab D = record lab { engine = c } in
      queued-IsCurrent actions
        (if interrupts D e || is_some (blocked D later c) then interrupted D after else after)
        (if_intro IsCurrent (interrupts D e || is_some (blocked D later c))
          (record { current = tt; few = omega arith })
          (record { current = h.current; few = h.few }))

  take_first-IsCurrent :
      (jobs : List (ℕ × Action)) (lab : Lab D)
      → All (λ job. job.0 ≡ lab.epoch) jobs
      → length jobs ≤ 4
      → IsCurrent (take_first D jobs (record lab { pending = jobs })).1
  take_first-IsCurrent [] lab h n = record { current = tt; few = omega arith }
  take_first-IsCurrent (job ∷ others) lab h n = record { current = h.1; few = omega arith }

  lab_step-IsCurrent : (h : Happening) (lab : Lab D) → IsCurrent lab → IsCurrent (lab_step h lab)
  unfolding apply take_item loop_failed shut_down
  lab_step-IsCurrent (applied e now later) lab c =
      apply_answer-IsCurrent e later lab (event D e now lab.engine) c
  lab_step-IsCurrent sight_lost lab c = ground arith
  lab_step-IsCurrent job_taken lab c = take_first-IsCurrent lab.pending lab c.current c.few
  lab_step-IsCurrent (loop_raised now) lab c = record { current = tt; few = omega arith }
  lab_step-IsCurrent (server_ended now) lab c = record { current = tt; few = omega arith }

  lab_run-keeps : (hs : List Happening) (lab : Lab D) → IsCurrent lab → IsCurrent (lab_run hs lab)
  unfolding lab_run
  lab_run-keeps [] lab c = c
  lab_run-keeps (h ∷ hs) lab c = lab_run-keeps hs (lab_step h lab) (lab_step-IsCurrent h lab c)

  -- Whatever has happened to a new laboratory, the actions that wait are at most four, and all of them
  -- carry the current epoch.
  pub lab_run-IsCurrent :
      (engine : Companion D) (hs : List Happening) → IsCurrent (lab_run hs (new_lab D engine))
  lab_run-IsCurrent engine hs =
      lab_run-keeps hs (new_lab D engine) (record { current = tt; few = omega arith })
