-- ===== src/Demo/Executor/Accepted.antt =====
-- What stands behind a command that was accepted.
use mathlib.Core.Path.{subst}
use dogos_memory.Base.{
  Bool-cases, Option, ap, arith, false, inl, inr, none, ok, refl, require, some, sym, true, ℕ, ◌&&◌,
  ◌∙◌, ◌≡◌,
}
use dogos_memory.Demo.Executor.{
  adapter_for, by_status, command_accepted, completed_from, dispatch, execute, execute_from, judge,
  report, route_matches, settled, source_allowed,
}
use dogos_memory.Demo.Models.{completion_conflict, invalid_recovered_completion}
use dogos_memory.Demo.Persistence.{
  PersistOutcome, RecoveryOutcome, agrees, anchor, check_existing, completion_memory_id,
  completion_source, find_0, find_1, persist, persist_from, recover, recover_from,
  recovered_receipt,
}
use dogos_memory.Demo.Persistence.Recorded.{IsRecorded, persist_from-IsRecorded}
use dogos_memory.Demo.Session.{
  ActionCommand, ActionReceipt, CommandReport, CompletionSource, ReceiptStatus, cancelled,
  service_acknowledged,
}
use dogos_memory.Demo.World.{Runtime, World, lift, pure, ◌>>=◌}
use dogos_memory.Demo.World.Keeps.{bind-inv, bind_pure-inv}
use dogos_memory.Memory.Models.{StoredMemory, is_empty}

-- The report lists no issue, and the completion that its receipt names is in both files.
abbrev pub IsBacked : Runtime → ActionCommand → CommandReport → World → Type 0
IsBacked rt c rep w =
    (source : CompletionSource) × (rep.receipt.status ≡ ReceiptStatus.completed)
    × (rep.receipt.source ≡ some source)
    × (is_empty rep.persistence_issues ≡ true)
    × IsRecorded rt.binding_0.dog c source rep.receipt.occurred_at_ms w.db_0
    × IsRecorded rt.binding_1.dog c source rep.receipt.occurred_at_ms w.db_1

some-inj {ℓ} : {A : Type ℓ} {a b : A} → some a ≡ some b → a ≡ b
some-inj h = cc h

module _ (rt : Runtime) (c : ActionCommand) where
  open rt use {config, binding_0, binding_1}

  settled-inv :
      (r rep : CommandReport)
      → settled r ≡ command_accepted rep
      → (rep ≡ r) × (is_empty r.persistence_issues ≡ true)
  settled-inv r rep h = ground arith

  recover_from-some :
      (m0 m1 a : Option StoredMemory) (w : World) {receipt : ActionReceipt} {out : PersistOutcome}
      {w' : World}
      → recover_from rt c m0 m1 a w ≡ (ok (some (receipt, out)), w')
      → (source : CompletionSource) × (at : ℕ) × (receipt ≡ recovered_receipt c source at)
        × (persist_from rt c source at w ≡ (ok out, w'))
  unfolding persist
  recover_from-some m0 m1 none w h = absurd (cc h)
  recover_from-some m0 m1 (some a) w {receipt} {out} {w'} h =
      let (_, _, h1) =
        bind-inv (lift (require (check_existing c a) invalid_recovered_completion)) _ w h in
      let (_, _, h2) =
        bind-inv (lift (require (agrees a m0 && agrees a m1) completion_conflict)) _ w h1 in
      let (source, _, h3) = bind-inv (lift (completion_source a.source)) _ w h2 in
      let (out', p, h4) =
        bind_pure-inv (persist rt c (recovered_receipt c source a.occurred_at_ms))
          (λ out'. some (recovered_receipt c source a.occurred_at_ms, out')) w h3 in
      (
        source,
        a.occurred_at_ms,
        sym (ap (λ x. x.0) (some-inj h4)),
        p ∙ ap (λ x. (ok (x.1), w')) (some-inj h4),
      )

  persist_completed :
      (r : ActionReceipt) (source : CompletionSource) (w : World)
      → r.status ≡ ReceiptStatus.completed
      → r.source ≡ some source
      → persist rt c r w ≡ persist_from rt c source r.occurred_at_ms w
  unfolding persist
  persist_completed r source w s t = rw (s, t) refl

  completed_from-IsBacked :
      (r : ActionReceipt) (source : Option CompletionSource) (w : World) {rep : CommandReport}
      {w' : World}
      → r.status ≡ ReceiptStatus.completed
      → r.source ≡ source
      → completed_from rt c r source w ≡ (ok (command_accepted rep), w')
      → IsBacked rt c rep w'
  completed_from-IsBacked r none w s t h = absurd (cc h)
  completed_from-IsBacked r (some source) w {rep} {w'} s t h =
      elim (Bool-cases (source_allowed config.mode source)) [
        | inr e ↦ absurd (cc (rw e at h))
        | inl e ↦
            let h' : (persist rt c r >>= λ out. pure (settled (report c r out false))) w
                ≡ (ok (command_accepted rep), w') =
              rw e at h in
            let (out, p, h1) =
              bind_pure-inv (persist rt c r) (λ out. settled (report c r out false)) w h' in
            let (q, clean) = settled-inv (report c r out false) rep h1 in
            let (x, y) =
              persist_from-IsRecorded rt c source r.occurred_at_ms w
                (sym (persist_completed r source w s t) ∙ p) clean in
            (
              source,
              ap (λ z. z.receipt.status) q ∙ s,
              ap (λ z. z.receipt.source) q ∙ t,
              ap (λ z. is_empty z.persistence_issues) q ∙ clean,
              rw q x,
              rw q y,
            )
      ]

  by_status-IsBacked :
      (r : ActionReceipt) (status : ReceiptStatus) (w : World) {rep : CommandReport} {w' : World}
      → r.status ≡ status
      → by_status rt status c r w ≡ (ok (command_accepted rep), w')
      → IsBacked rt c rep w'
  by_status-IsBacked r ReceiptStatus.completed w s h = completed_from-IsBacked r r.source w s refl h
  by_status-IsBacked r service_acknowledged w s h = absurd (cc (ap (λ x. x.0) h))
  by_status-IsBacked r ReceiptStatus.failed w s h = absurd (cc (ap (λ x. x.0) h))
  by_status-IsBacked r cancelled w s h = absurd (cc (ap (λ x. x.0) h))

  judge-IsBacked :
      (r : ActionReceipt) (w : World) {rep : CommandReport} {w' : World}
      → judge rt c r w ≡ (ok (command_accepted rep), w')
      → IsBacked rt c rep w'
  unfolding judge
  judge-IsBacked r w h = elim (Bool-cases (route_matches c r)) [
    | inl e ↦ by_status-IsBacked r r.status w refl (rw e at h)
    | inr e ↦ absurd (cc (ap (λ x. x.0) (rw e at h)))
  ]

  execute_from-IsBacked :
      (recovered : RecoveryOutcome) (w0 w : World) {rep : CommandReport} {w' : World}
      → recover rt c w0 ≡ (ok recovered, w)
      → execute_from rt c recovered w ≡ (ok (command_accepted rep), w')
      → IsBacked rt c rep w'
  unfolding recover find_0 find_1
  execute_from-IsBacked none w0 w p h =
      let (adapter, _, h1) = bind-inv (lift (adapter_for rt c)) _ w h in
      let (r, _, h2) = bind-inv (dispatch rt adapter c) _ w h1 in judge-IsBacked r _ h2
  execute_from-IsBacked (some (receipt, out)) w0 w {rep} {w'} p h =
      let (m0, _, p1) = bind-inv (find_0 rt (completion_memory_id c)) _ w0 p in
      let (m1, _, p2) = bind-inv (find_1 rt (completion_memory_id c)) _ w0 p1 in
      let (source, at, e, q) = recover_from-some m0 m1 (anchor m0 m1) w0 p2 in
      let (f, clean) = settled-inv (report c receipt out true) rep (cc (ap (λ x. x.0) h)) in
      let (x, y) = persist_from-IsRecorded rt c source at w0 q clean in
      let time : rep.receipt.occurred_at_ms ≡ at =
        ap (λ z. z.receipt.occurred_at_ms) f ∙ ap (λ z. z.occurred_at_ms) e in
      let world : w ≡ w' = ap (λ z. z.1) h in
      (
        source,
        ap (λ z. z.receipt.status) f ∙ ap (λ z. z.status) e,
        ap (λ z. z.receipt.source) f ∙ ap (λ z. z.source) e,
        ap (λ z. is_empty z.persistence_issues) f ∙ clean,
        subst (λ v. IsRecorded binding_0.dog c source rep.receipt.occurred_at_ms v.db_0) world
            (subst (λ t. IsRecorded binding_0.dog c source t w.db_0) (sym time) x),
        subst (λ v. IsRecorded binding_1.dog c source rep.receipt.occurred_at_ms v.db_1) world
            (subst (λ t. IsRecorded binding_1.dog c source t w.db_1) (sym time) y),
      )

  -- A command is accepted, on its receipt or on record, only once its completion is in both files under
  -- its identifier, each in the view of its own dog, with the source and the time of the receipt.
  pub execute_accepted :
      (w : World) {rep : CommandReport} {w' : World}
      → execute rt c w ≡ (ok (command_accepted rep), w')
      → IsBacked rt c rep w'
  unfolding execute
  execute_accepted w h =
      let (r, p, h1) = bind-inv (recover rt c) _ w h in
      execute_from-IsBacked r w (recover rt c w).1 p h1
