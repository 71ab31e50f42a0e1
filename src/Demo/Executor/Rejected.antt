-- ===== src/Demo/Executor/Rejected.antt =====
-- What a command that was refused leaves behind.
use mathlib.Core.Path.{subst}
use dogos_memory.Base.{
  Bool-cases, Option, Result, [], ap, arith, false, inl, inr, none, ok, refl, some, sym, true, ◌∙◌,
  ◌∷◌, ◌≡◌, ◌≢◌,
}
use dogos_memory.Demo.Executor.{
  CommandOutcome, adapter_for, by_status, command_rejected, completed_from, dispatch, execute,
  execute_from, judge, refused, report, route_matches, settled, source_allowed,
}
use dogos_memory.Demo.Executor.Redispatch.{recover-none-same}
use dogos_memory.Demo.Models.{DemoError}
use dogos_memory.Demo.Persistence.{RecoveryOutcome, persist, recover}
use dogos_memory.Demo.Session.{
  AbortReason, ActionCommand, ActionReceipt, CommandReport, CompletionSource, ReceiptStatus,
  action_cancelled, action_failed, cancelled, completion_source_mismatch, persistence_pending,
  routing_conflict, service_acknowledged, service_unconfirmed,
}
use dogos_memory.Demo.World.{Runtime, World, lift, pure, ◌>>=◌}
use dogos_memory.Demo.World.Keeps.{bind-inv, bind_pure-inv}

-- The command was handed over, and its refusal left both files as they were.
abbrev pub IsRefused : ActionCommand → CommandReport → World → World → Type 0
IsRefused c rep w w' =
    (w'.db_0 ≡ w.db_0)
    × (w'.db_1 ≡ w.db_1)
    × (w'.dispatched ≡ c ∷ w.dispatched)
    × (rep.persisted_owner_ids ≡ [])

-- Nothing is written, and the report says so.
abbrev IsUnwritten : CommandReport → World → World → Type 0
IsUnwritten rep w w' = (w' ≡ w) × (rep.persisted_owner_ids ≡ [])

outcome-inj :
    {a b : CommandOutcome} → ◌≡◌ {A = Result DemoError CommandOutcome} (ok a) (ok b) → a ≡ b
outcome-inj h = cc h

settled-pending :
    (r rep : CommandReport) (reason : AbortReason)
    → settled r ≡ command_rejected rep reason
    → reason ≡ persistence_pending
settled-pending r rep reason h = ground arith

rejected_ids :
    {c : ActionCommand} {r : ActionReceipt} {why reason : AbortReason} {rep : CommandReport}
    → refused c r why ≡ command_rejected rep reason
    → rep.persisted_owner_ids ≡ []
rejected_ids h = ground arith

refused-inv :
    (c : ActionCommand) (r : ActionReceipt) (why : AbortReason) (w : World) {rep : CommandReport}
    {reason : AbortReason} {w' : World}
    → pure (refused c r why) w ≡ (ok (command_rejected rep reason), w')
    → IsUnwritten rep w w'
refused-inv c r why w {rep} {reason} h =
    (sym (ap (λ x. x.1) h), rejected_ids (outcome-inj (ap (λ x. x.0) h)))

module _ (rt : Runtime) (c : ActionCommand) {rep : CommandReport} {reason : AbortReason}
    (settles : reason ≢ persistence_pending) where
  open rt use {config, binding_0, binding_1}

  completed_from-IsUnwritten :
      (r : ActionReceipt) (source : Option CompletionSource) (w : World) {w' : World}
      → completed_from rt c r source w ≡ (ok (command_rejected rep reason), w')
      → IsUnwritten rep w w'
  completed_from-IsUnwritten r none w h = refused-inv c r completion_source_mismatch w h
  completed_from-IsUnwritten r (some source) w {w'} h =
      elim (Bool-cases (source_allowed config.mode source)) [
        | inr e ↦ refused-inv c r completion_source_mismatch w (rw e at h)
        | inl e ↦
            let h' : (persist rt c r >>= λ out. pure (settled (report c r out false))) w
                ≡ (ok (command_rejected rep reason), w') =
              rw e at h in
            let (out, p, h1) =
              bind_pure-inv (persist rt c r) (λ out. settled (report c r out false)) w h' in
            absurd (settles (settled-pending (report c r out false) rep reason h1))
      ]

  by_status-IsUnwritten :
      (status : ReceiptStatus) (r : ActionReceipt) (w : World) {w' : World}
      → by_status rt status c r w ≡ (ok (command_rejected rep reason), w')
      → IsUnwritten rep w w'
  by_status-IsUnwritten ReceiptStatus.completed r w h = completed_from-IsUnwritten r r.source w h
  by_status-IsUnwritten service_acknowledged r w h = refused-inv c r service_unconfirmed w h
  by_status-IsUnwritten ReceiptStatus.failed r w h = refused-inv c r action_failed w h
  by_status-IsUnwritten cancelled r w h = refused-inv c r action_cancelled w h

  judge-IsUnwritten :
      (r : ActionReceipt) (w : World) {w' : World}
      → judge rt c r w ≡ (ok (command_rejected rep reason), w')
      → IsUnwritten rep w w'
  unfolding judge
  judge-IsUnwritten r w h = elim (Bool-cases (route_matches c r)) [
    | inl e ↦ by_status-IsUnwritten r.status r w (rw e at h)
    | inr e ↦ refused-inv c r routing_conflict w (rw e at h)
  ]

  execute_from-IsRefused :
      (recovered : RecoveryOutcome) (w : World) {w' : World}
      → execute_from rt c recovered w ≡ (ok (command_rejected rep reason), w')
      → (recovered ≡ none) × IsRefused c rep w w'
  unfolding dispatch
  execute_from-IsRefused (some (receipt, out)) w h = absurd (
      settles
        (settled-pending (report c receipt out true) rep reason (outcome-inj (ap (λ x. x.0) h))))
  execute_from-IsRefused none w h =
      let (adapter, _, h1) = bind-inv (lift (adapter_for rt c)) _ w h in
      let (r, _, h2) = bind-inv (dispatch rt adapter c) _ w h1 in
      let (same, ids) = judge-IsUnwritten r _ h2 in
      (refl, (ap (λ v. v.db_0) same, ap (λ v. v.db_1) same, ap (λ v. v.dispatched) same, ids))

  -- A command is refused for another reason than a file that did not take its completion, that is for
  -- its receipt, only after it was handed to an adapter; then neither file has changed, and the report
  -- names no owner.
  pub execute_rejected :
      (w : World) {w' : World}
      → execute rt c w ≡ (ok (command_rejected rep reason), w')
      → IsRefused c rep w w'
  unfolding execute
  execute_rejected w {w'} h =
      let (r, p, h1) = bind-inv (recover rt c) _ w h in
      let (e, refusal) = execute_from-IsRefused r (recover rt c w).1 h1 in
      subst (λ v. IsRefused c rep v w')
        (recover-none-same rt c w (p ∙ ap (λ x. (ok x, (recover rt c w).1)) e)) refusal
