-- ===== src/Demo/Coordinator/Bounded.antt =====
-- How much a session does, whatever the adapters answer and whenever it is stopped.
use mathlib.Core.Path.{subst}
use dogos_memory.Base.{
  Bool-cases, List, Text, [], ap, arith, inl, inr, length, refl, suc, sym, ℕ, ◌++◌, ◌∙◌, ◌∷◌, ◌≡◌,
  ◌≤◌,
}
use dogos_memory.Demo.Coordinator.{
  PlanRun, StopSignal, go_on_after, plan_for, run, run_confirmed, run_plan, run_status,
}
use dogos_memory.Demo.Coordinator.Reads.{
  IsSame, IsSame-IsPreorder, abort_session-IsSame, conclude-IsSame, original_initiator-IsSame,
  recalls-IsSame, snapshot-IsSame,
}
use dogos_memory.Demo.Executor.{CommandOutcome, command_accepted, command_rejected, execute}
use dogos_memory.Demo.Executor.Keeps.{HandsAtMost, execute-HandsAtMost}
use dogos_memory.Demo.Models.{IdentityDecision, IdentityStatus, pending, rejected, suppressed}
use dogos_memory.Demo.PairMemory.{original_initiator, recalls, snapshot}
use dogos_memory.Demo.Persistence.Keeps.{
  IsQuiet, IsQuiet-IsPreorder, KeepsMemories, KeepsMemories-IsPreorder,
}
use dogos_memory.Demo.Plan.{PairRecalls}
use dogos_memory.Demo.Session.{ActionCommand, CommandReport, PairSnapshot}
use dogos_memory.Demo.World.{Action, Runtime, World, lift, ◌>>=◌}
use dogos_memory.Demo.World.Keeps.{Keeps, Keeps-join, Keeps-lift}

-- At most `n` commands are handed to adapters, in front of those handed before, and no memory is lost.
abbrev pub Adds : ℕ → World → World → Type 0
Adds n w w' =
    (new : List ActionCommand) × (w'.dispatched ≡ new ++ w.dispatched)
    × (length new ≤ n)
    × KeepsMemories w w'

Adds-quiet : (n : ℕ) (w w' : World) → IsQuiet w w' → Adds n w w'
Adds-quiet n w w' q = ([], q.0, omega arith, q.1)

append_assoc :
    (xs : List ActionCommand) (c : ActionCommand) (ys : List ActionCommand)
    → xs ++ (c ∷ ys) ≡ (xs ++ (c ∷ [])) ++ ys
append_assoc [] c ys = refl
append_assoc (x ∷ xs) c ys = ap (λ zs. x ∷ zs) (append_assoc xs c ys)

length-snoc :
    (xs : List ActionCommand) (c : ActionCommand) → length (xs ++ (c ∷ [])) ≡ suc (length xs)
length-snoc [] c = refl
length-snoc (x ∷ xs) c = ap suc (length-snoc xs c)

Adds-step :
    (c : ActionCommand) (n : ℕ) (w w' w'' : World)
    → HandsAtMost c w w'
    → Adds n w' w''
    → Adds (suc n) w w''
Adds-step c n w w' w'' (inl q) (new, d, l, k) = (
  new,
  d ∙ ap (λ ds. new ++ ds) q.0,
  omega (arith, l),
  KeepsMemories-IsPreorder.then w w' w'' q.1 k,
)
Adds-step c n w w' w'' (inr h) (new, d, l, k) = (
  new ++ (c ∷ []),
  d ∙ ap (λ ds. new ++ ds) h.0 ∙ append_assoc new c w.dispatched,
  omega (arith, l, length-snoc new c),
  KeepsMemories-IsPreorder.then w w' w'' h.1 k,
)

Adds-start : (c : ActionCommand) (n : ℕ) (w w' : World) → HandsAtMost c w w' → Adds (suc n) w w'
Adds-start c n w w' h = Adds-step c n w w' w' h (Adds-quiet n w' w' (IsQuiet-IsPreorder.same w'))

module _ {A B : Type 0} (n : ℕ) where
  Keeps-read_first :
      (m : Action A) (f : A → Action B)
      → Keeps IsSame m
      → ((a : A) → Keeps (Adds n) (f a))
      → Keeps (Adds n) (m >>= f)
  Keeps-read_first =
      Keeps-join {R = IsSame} {S = Adds n} {T = Adds n}
        (λ w w' e. subst (λ x. Adds n w x) (sym e) (Adds-quiet n w w (IsQuiet-IsPreorder.same w)))
        (λ w w' w'' e s. subst (λ x. Adds n x w'') e s)

  Keeps-read_last :
      (m : Action A) (f : A → Action B)
      → Keeps (Adds n) m
      → ((a : A) → Keeps IsSame (f a))
      → Keeps (Adds n) (m >>= f)
  Keeps-read_last =
      Keeps-join {R = Adds n} {S = IsSame} {T = Adds n} (λ w w' s. s)
        (λ w w' w'' s e. subst (λ x. Adds n w x) (sym e) s)

same-Adds : {A : Type 0} (n : ℕ) (m : Action A) → Keeps IsSame m → Keeps (Adds n) m
same-Adds n m k = record {
  at = λ w. subst (λ x. Adds n w x) (sym (k.at w)) (Adds-quiet n w w (IsQuiet-IsPreorder.same w));
}

go_on_after-Adds :
    (n : ℕ) (rest : List CommandReport → Action PlanRun) (reports : List CommandReport)
    → ((rs : List CommandReport) → Keeps (Adds n) (rest rs))
    → (outcome : CommandOutcome) → Keeps (Adds n) (go_on_after rest reports outcome)
go_on_after-Adds n rest reports k (command_accepted r) = k (reports ++ (r ∷ []))
go_on_after-Adds n rest reports k (command_rejected r reason) = record {
  at = λ w. Adds-quiet n w w (IsQuiet-IsPreorder.same w);
}

module _ (rt : Runtime) where
  open rt use {config}

  run_plan-Adds :
      (stop : StopSignal) (cs : List ActionCommand) (reports : List CommandReport)
      → Keeps (Adds (length cs)) (run_plan rt stop cs reports)
  unfolding run_plan
  run_plan-Adds stop [] reports = record { at = λ w. Adds-quiet 0 w w (IsQuiet-IsPreorder.same w) }
  run_plan-Adds stop (c ∷ cs) reports = elim (Bool-cases (stop reports)) [
    | inl e ↦
        rw e (record { at = λ w. Adds-quiet (suc (length cs)) w w (IsQuiet-IsPreorder.same w) })
    | inr e ↦ rw e (
        Keeps-join {R = HandsAtMost c} {S = Adds (length cs)} {T = Adds (suc (length cs))}
          (Adds-start c (length cs)) (Adds-step c (length cs)) (execute rt c) _
          (execute-HandsAtMost rt c)
          (go_on_after-Adds (length cs) (run_plan rt stop cs) reports (run_plan-Adds stop cs)))
  ]

  run_confirmed-Adds :
      (session : Text) (identity : IdentityDecision) (stop : StopSignal) (memories : PairRecalls)
      (before : PairSnapshot)
      → Keeps (Adds 2) (run_confirmed rt session identity stop memories before)
  unfolding run_confirmed
  run_confirmed-Adds session identity stop memories before =
      Keeps-read_first 2 (original_initiator rt session) _ (original_initiator-IsSame rt session)
        λ original.
          Keeps-read_first 2 (lift (plan_for rt identity session memories original)) _
            (Keeps-lift IsSame-IsPreorder _)
            λ plan.
              Keeps-read_last 2 (run_plan rt stop (plan.0 ∷ plan.1 ∷ []) []) _
                (run_plan-Adds stop (plan.0 ∷ plan.1 ∷ []) []) (conclude-IsSame rt _)

  run_status-Adds :
      (status : IdentityStatus) (session : Text) (identity : IdentityDecision) (stop : StopSignal)
      (memories : PairRecalls) (before : PairSnapshot)
      → Keeps (Adds 2) (run_status rt status session identity stop memories before)
  run_status-Adds IdentityStatus.confirmed session identity stop memories before =
      run_confirmed-Adds session identity stop memories before
  run_status-Adds pending session identity stop memories before =
      same-Adds 2 _ (abort_session-IsSame rt _ _ _)
  run_status-Adds rejected session identity stop memories before =
      same-Adds 2 _ (abort_session-IsSame rt _ _ _)
  run_status-Adds suppressed session identity stop memories before =
      same-Adds 2 _ (abort_session-IsSame rt _ _ _)

  -- A session, whatever the adapters answer, whenever it is stopped and also where it raises, hands at
  -- most two commands to adapters, undoes no dispatch, and every memory that either file held reads
  -- back the same.
  pub run_bounded :
      (session : Text) (identity : IdentityDecision) (stop : StopSignal) (w : World)
      → Adds 2 w (run rt session identity stop w).1
  unfolding run
  run_bounded session identity stop w =
      (Keeps-read_first 2 (recalls rt) _ (recalls-IsSame rt) λ memories.
          Keeps-read_first 2 (snapshot rt) _ (snapshot-IsSame rt)
            λ before. run_status-Adds identity.status session identity stop memories before).at
        w
