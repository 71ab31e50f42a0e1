-- ===== src/Demo/Executor/Keeps.antt =====
-- What executing one command leaves alone, whatever the adapter answers.
use dogos_memory.Base.{Bool-cases, Option, ap, inl, inr, none, refl, some, ◌∙◌, ◌∷◌, ◌≡◌, ◌⊎◌}
use dogos_memory.Demo.Executor.{
  adapter_for, by_status, completed_from, dispatch, execute, execute_from, judge, route_matches,
  source_allowed,
}
use dogos_memory.Demo.Persistence.{RecoveryOutcome, persist, recover}
use dogos_memory.Demo.Persistence.Keeps.{
  IsQuiet, IsQuiet-IsPreorder, KeepsMemories, KeepsMemories-IsPreorder, persist-IsQuiet,
  recover-IsQuiet,
}
use dogos_memory.Demo.Session.{
  ActionCommand, ActionReceipt, CompletionSource, ReceiptStatus, cancelled, service_acknowledged,
}
use dogos_memory.Demo.World.{ActionAdapter, Runtime, World, lift}
use dogos_memory.Demo.World.Keeps.{Keeps, Keeps-bind, Keeps-join}

module _ (c : ActionCommand) where
  -- The command, and nothing else, is handed to an adapter.
  abbrev pub Hands : World → World → Type 0
  Hands w w' = (w'.dispatched ≡ c ∷ w.dispatched) × KeepsMemories w w'

  -- The command is handed to an adapter at most once, and nothing else is.
  abbrev pub HandsAtMost : World → World → Type 0
  HandsAtMost w w' = IsQuiet w w' ⊎ Hands w w'

module _ (rt : Runtime) where
  open rt use {config}

  completed_from-IsQuiet :
      (c : ActionCommand) (r : ActionReceipt) (source : Option CompletionSource)
      → Keeps IsQuiet (completed_from rt c r source)
  completed_from-IsQuiet c r none = record { at = IsQuiet-IsPreorder.same }
  completed_from-IsQuiet c r (some source) = elim (Bool-cases (source_allowed config.mode source)) [
    | inl e ↦ rw e (
        Keeps-bind IsQuiet-IsPreorder (persist rt c r) _ (persist-IsQuiet rt c r)
          λ out. record { at = IsQuiet-IsPreorder.same })
    | inr e ↦ rw e (record { at = IsQuiet-IsPreorder.same })
  ]

  by_status-IsQuiet :
      (status : ReceiptStatus) (c : ActionCommand) (r : ActionReceipt)
      → Keeps IsQuiet (by_status rt status c r)
  by_status-IsQuiet ReceiptStatus.completed c r = completed_from-IsQuiet c r r.source
  by_status-IsQuiet service_acknowledged c r = record { at = IsQuiet-IsPreorder.same }
  by_status-IsQuiet ReceiptStatus.failed c r = record { at = IsQuiet-IsPreorder.same }
  by_status-IsQuiet cancelled c r = record { at = IsQuiet-IsPreorder.same }

  judge-IsQuiet : (c : ActionCommand) (r : ActionReceipt) → Keeps IsQuiet (judge rt c r)
  unfolding judge
  judge-IsQuiet c r = elim (Bool-cases (route_matches c r)) [
    | inl e ↦ rw e (by_status-IsQuiet r.status c r)
    | inr e ↦ rw e (record { at = IsQuiet-IsPreorder.same })
  ]

  dispatch-Hands : (a : ActionAdapter) (c : ActionCommand) → Keeps (Hands c) (dispatch rt a c)
  unfolding dispatch
  dispatch-Hands a c = record { at = λ w. (refl, KeepsMemories-IsPreorder.same w) }

  execute_from-HandsAtMost :
      (c : ActionCommand) (r : RecoveryOutcome) → Keeps (HandsAtMost c) (execute_from rt c r)
  execute_from-HandsAtMost c (some (receipt, out)) = record {
    at = λ w. inl (IsQuiet-IsPreorder.same w);
  }
  execute_from-HandsAtMost c none =
      Keeps-join {R = IsQuiet} {S = Hands c} (λ w w' q. inl q)
        (λ w w' w'' q h.
          inr (h.0 ∙ ap (λ ds. c ∷ ds) q.0, KeepsMemories-IsPreorder.then w w' w'' q.1 h.1))
        (lift (adapter_for rt c)) _ (record { at = IsQuiet-IsPreorder.same })
        λ adapter.
          Keeps-join {R = Hands c} {S = IsQuiet} (λ w w' h. h)
            (λ w w' w'' h q. (q.0 ∙ h.0, KeepsMemories-IsPreorder.then w w' w'' h.1 q.1))
            (dispatch rt adapter c) _ (dispatch-Hands adapter c) λ r. judge-IsQuiet c r

  pub execute-HandsAtMost : (c : ActionCommand) → Keeps (HandsAtMost c) (execute rt c)
  unfolding execute
  execute-HandsAtMost c =
      Keeps-join {R = IsQuiet} {S = HandsAtMost c} (λ w w' q. inl q)
        (λ w w' w'' q h. elim h [
          | inl s ↦ inl (IsQuiet-IsPreorder.then w w' w'' q s)
          | inr s ↦
              inr (s.0 ∙ ap (λ ds. c ∷ ds) q.0, KeepsMemories-IsPreorder.then w w' w'' q.1 s.1)
        ])
        (recover rt c) _ (recover-IsQuiet rt c) λ r. execute_from-HandsAtMost c r
