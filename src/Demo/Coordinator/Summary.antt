-- ===== src/Demo/Coordinator/Summary.antt =====
-- The summary of a session meets its contract.
use mathlib.Core.Path.{subst}
use dogos_memory.Base.{
  Bool-cases, List, Result, [], all, ap, arith, inl, inr, is_some, length, none, ok, refl, some,
  suc, true, ℕ, ◌++◌, ◌+◌, ◌∙◌, ◌∷◌, ◌≡◌, ◌≤◌,
}
use dogos_memory.Demo.Coordinator.{
  PlanRun, SessionContext, StopSignal, abort_session, conclude, finished, go_on_after, run_plan,
  stopped, summarized,
}
use dogos_memory.Demo.Executor.{CommandOutcome, command_accepted, command_rejected, execute}
use dogos_memory.Demo.Executor.Accepted.{execute_accepted}
use dogos_memory.Demo.Models.{DemoError}
use dogos_memory.Demo.PairMemory.{snapshot}
use dogos_memory.Demo.Session.{
  ActionCommand, CommandReport, PairSnapshot, SessionStatus, SessionSummary, check_session,
  is_persisted, is_session_identifier,
}
use dogos_memory.Demo.World.{Action, Runtime, World, lift}
use dogos_memory.Demo.World.Keeps.{bind-inv, bind_ok}

-- What the loop over a plan of `n` commands ends with.
abbrev IsWithin : ℕ → PlanRun → Type 0
IsWithin n (finished rs) = (all is_persisted rs ≡ true) × (length rs ≡ n)
IsWithin n (stopped rs reason) = length rs ≤ n

all-snoc :
    (rs : List CommandReport) (r : CommandReport)
    → all is_persisted rs ≡ true
    → is_persisted r ≡ true
    → all is_persisted (rs ++ (r ∷ [])) ≡ true
all-snoc [] r h k = rw k refl
all-snoc (x ∷ rs) r h k = ground (arith, all-snoc rs r)

length-add :
    (rs : List CommandReport) (r : CommandReport) → length (rs ++ (r ∷ [])) ≡ suc (length rs)
length-add [] r = refl
length-add (x ∷ rs) r = ap suc (length-add rs r)

abbrev pub reports_of : PlanRun → List CommandReport
reports_of (finished rs) = rs
reports_of (stopped rs reason) = rs

run-inj : {a b : PlanRun} → ◌≡◌ {A = Result DemoError PlanRun} (ok a) (ok b) → a ≡ b
run-inj h = cc h

module _ (rt : Runtime) where
  is_persisted-accepted :
      (c : ActionCommand) (w : World) {r : CommandReport} {w' : World}
      → execute rt c w ≡ (ok (command_accepted r), w')
      → is_persisted r ≡ true
  is_persisted-accepted c w {r} h =
      let (source, s, _, clean, _, _) = execute_accepted rt c w h in rw (s, clean) refl

  go_on_after-IsWithin :
      (n : ℕ) (rest : List CommandReport → Action PlanRun) (reports : List CommandReport)
      (outcome : CommandOutcome) (w : World) {ended : PlanRun} {w' : World}
      → ((r : CommandReport)
          → outcome ≡ command_accepted r
          → rest (reports ++ (r ∷ [])) w ≡ (ok ended, w')
          → IsWithin n ended)
      → suc (length reports) ≤ n
      → go_on_after rest reports outcome w ≡ (ok ended, w')
      → IsWithin n ended
  go_on_after-IsWithin n rest reports (command_accepted r) w k l h = k r refl h
  go_on_after-IsWithin n rest reports (command_rejected r reason) w k l h =
      subst (IsWithin n) (run-inj (ap (λ x. x.0) h)) (omega (arith, length-add reports r, l))

  run_plan-IsWithin :
      (stop : StopSignal) (cs : List ActionCommand) (reports : List CommandReport) (w : World)
      {ended : PlanRun} {w' : World} (n : ℕ)
      → n ≡ length reports + length cs
      → all is_persisted reports ≡ true
      → run_plan rt stop cs reports w ≡ (ok ended, w')
      → IsWithin n ended
  unfolding run_plan
  run_plan-IsWithin stop [] reports w n l a h =
      subst (IsWithin n) (run-inj (ap (λ x. x.0) h)) (a, omega (arith, l))
  run_plan-IsWithin stop (c ∷ cs) reports w n l a h = elim (Bool-cases (stop reports)) [
    | inl e ↦ subst (IsWithin n) (run-inj (ap (λ x. x.0) (rw e at h))) (omega (arith, l))
    | inr e ↦
        let (outcome, p, h1) =
          bind-inv (execute rt c) (go_on_after (run_plan rt stop cs) reports) w (rw e at h) in
        go_on_after-IsWithin n (run_plan rt stop cs) reports outcome (execute rt c w).1
          (λ r q k.
            run_plan-IsWithin stop cs (reports ++ (r ∷ [])) (execute rt c w).1 n
              (omega (arith, l, length-add reports r))
              (all-snoc reports r a
                (is_persisted-accepted c w (p ∙ ap (λ x. (ok x, (execute rt c w).1)) q)))
              k)
          (omega (arith, l)) h1
  ]

  summarized-ok :
      (s : SessionSummary) (w : World) → check_session s ≡ true → lift (summarized s) w ≡ (ok s, w)
  summarized-ok s w e = rw e refl

  -- What a summary says of an end of the loop.
  abbrev pub SaysEnd : PlanRun → SessionSummary → Type 0
  SaysEnd (finished rs) s = (s.status ≡ SessionStatus.completed) × (s.abort_reason ≡ none)
  SaysEnd (stopped rs reason) s =
      (s.status ≡ SessionStatus.aborted) × (s.abort_reason ≡ some reason)

  -- The summary that is constructed from an end of the loop.
  abbrev pub IsSummarized : SessionContext → PlanRun → World → Type 0
  IsSummarized context ended w =
      (s : SessionSummary) × (conclude rt context ended w ≡ (ok s, w))
      × (s.session_id ≡ context.session_id)
      × (s.commands ≡ reports_of ended)
      × SaysEnd ended s
      × (check_session s ≡ true)

  conclude-IsSummarized :
      (context : SessionContext) (ended : PlanRun) (w : World) (v : PairSnapshot)
      → is_session_identifier context.session_id ≡ true
      → is_some context.initiator_id ≡ true
      → IsWithin 2 ended
      → snapshot rt w ≡ (ok v, w)
      → IsSummarized context ended w
  unfolding check_session abort_session
  conclude-IsSummarized context (finished rs) w v d i (a, l) h =
      let s : SessionSummary = record {
        session_id = context.session_id;
        status = SessionStatus.completed;
        abort_reason = none;
        identity = context.identity;
        initiator_id = context.initiator_id;
        before = context.before;
        after = v;
        commands = rs;
      } in
      let e : check_session s ≡ true = rw (d, i, l, a) refl in
      (s, bind_ok (snapshot rt) _ w h ∙ summarized-ok s w e, refl, refl, (refl, refl), e)
  conclude-IsSummarized context (stopped rs reason) w v d i l h =
      let s : SessionSummary = record {
        session_id = context.session_id;
        status = SessionStatus.aborted;
        abort_reason = some reason;
        identity = context.identity;
        initiator_id = context.initiator_id;
        before = context.before;
        after = v;
        commands = rs;
      } in
      let e : check_session s ≡ true = ground arith in
      (s, bind_ok (snapshot rt) _ w h ∙ summarized-ok s w e, refl, refl, (refl, refl), e)

  -- In a session with a valid identifier and with an initiator, however the loop over a plan of two
  -- commands ends, if the memories can still be read, the summary can be constructed: it meets its
  -- contract, holds exactly the reports of the loop, and says how the loop ended and why.
  pub conclude_valid :
      (stop : StopSignal) (a b : ActionCommand) (context : SessionContext) (w : World)
      {ended : PlanRun} {w' : World} {v : PairSnapshot}
      → is_session_identifier context.session_id ≡ true
      → is_some context.initiator_id ≡ true
      → run_plan rt stop (a ∷ b ∷ []) [] w ≡ (ok ended, w')
      → snapshot rt w' ≡ (ok v, w')
      → IsSummarized context ended w'
  conclude_valid stop a b context w {ended} {w'} {v} d i h q =
      conclude-IsSummarized context ended w' v d i
        (run_plan-IsWithin stop (a ∷ b ∷ []) [] w 2 refl refl h) q
