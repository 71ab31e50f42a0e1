-- ===== src/Choreo/Live/Sent.antt =====
-- What the live driver of apps/demo_choreo/live.py sends in a step after `_check_cancelled`: at most one command, under its guard.
use dogos_memory.Base.{
  Bool, Bool-cases, Option-cases, Text, ap, arith, codes, err, if_intro, inl, inr, none, ok, refl,
  some, true, ℕ, ◌||◌, ◌∙◌, ◌∷◌, ◌≡◌, ◌⊎◌,
}
use dogos_memory.Choreo.Catalogue.{items_of}
use dogos_memory.Choreo.Live.{
  Command, Environment, Live, LiveResult, Ran, answered, answered_with, check_cancelled,
  guard_expression, guard_reasons, pace, send, send_emotion, then_do, wait_for,
}
use dogos_memory.Choreo.Live.Steps.{
  act, activate, available, duration, express, express_emotion, show_emotion,
}
use dogos_memory.Companion.Models.{Doubles}
use dogos_memory.Memory.Models.{is_empty}
use dogos_memory.Value.{Value, get_key, text_is}

module _ (D : Doubles) (E : Environment D) where
  -- the guard at a reading, for a battery
  abbrev pub guard_passes : ℕ → ℕ → Bool
  guard_passes min_battery n = elim E.guard [
    | none ↦ true
    | some context ↦ is_empty (guard_reasons min_battery (context n))
  ]

  -- what a step leaves as it is
  abbrev pub IsKept : Live D → Live D → Type 0
  IsKept s s' =
      (s'.min_battery ≡ s.min_battery) × (s'.deadline ≡ s.deadline) × (s'.cancelled ≡ s.cancelled)

  pub IsKept-trans : (s t u : Live D) → IsKept s t → IsKept t u → IsKept s u
  IsKept-trans s t u p q = (q.0 ∙ p.0, q.1 ∙ p.1, q.2 ∙ p.2)

  abbrev pub IsQuiet : Live D → Live D → Type 0
  IsQuiet s s' = (s'.sent ≡ s.sent) × IsKept s s'

  IsQuiet-trans : (s t u : Live D) → IsQuiet s t → IsQuiet t u → IsQuiet s u
  IsQuiet-trans s t u (sent, p) (sent', q) = (sent' ∙ sent, IsKept-trans s t u p q)

  -- Nothing was sent, or one command, for which the guard passed where it was read.
  abbrev pub IsSent : Live D → Live D → Type 0
  IsSent s s' =
      IsQuiet s s'
      ⊎ ((command : Command) × (s'.sent ≡ command ∷ s.sent)
          × IsKept s s'
          × (guard_passes s.min_battery s.now ≡ true))

  IsSent-IsQuiet : (s t u : Live D) → IsSent s t → IsQuiet t u → IsSent s u
  IsSent-IsQuiet s t u (inl p) q = inl (IsQuiet-trans s t u p q)
  IsSent-IsQuiet s t u (inr (command, sent, kept, passes)) (same, q) =
      inr (command, same ∙ sent, IsKept-trans s t u kept q, passes)

  -- what holds after the first part, and after the second wherever the first succeeds
  pub then_do_after :
      {A B : Type 0} (P : Live D → Type 0) (m : Ran D A) (next : A → Live D → Ran D B)
      → P m.0
      → ((a : A) → m.1 ≡ ok a → P (next a m.0).0)
      → P (then_do D m next).0
  then_do_after P (s, err e) next p q = p
  then_do_after P (s, ok a) next p q = q a refl

  pub check_cancelled-IsQuiet : (s : Live D) → IsQuiet s (check_cancelled D E s).0
  unfolding check_cancelled
  check_cancelled-IsQuiet s = ground arith

  wait_for-IsQuiet : (seconds : D.value) (s : Live D) → IsQuiet s (wait_for D E seconds s).0
  unfolding wait_for
  wait_for-IsQuiet seconds s = ground arith

  pace-IsQuiet : (seconds : D.value) (s : Live D) → IsQuiet s (pace D E seconds s).0
  unfolding pace
  pace-IsQuiet seconds s =
      then_do_after (IsQuiet s) (check_cancelled D E s) _ (check_cancelled-IsQuiet s) (λ a e.
        let s1 = (check_cancelled D E s).0 in
        IsQuiet-trans s s1 (wait_for D E seconds s1).0 (check_cancelled-IsQuiet s)
          (wait_for-IsQuiet seconds s1))

  guard_expression-IsQuiet : (s : Live D) → IsQuiet s (guard_expression D E s).0
  unfolding guard_expression
  guard_expression-IsQuiet s = elim (Option-cases E.guard) [
    | inl e ↦ rw e (refl, (refl, refl, refl))
    | inr (context, e) ↦ rw e (refl, (refl, refl, refl))
  ]

  guard_expression-passes :
      (s : Live D) {u : Unit {0}}
      → (guard_expression D E s).1 ≡ ok u
      → guard_passes s.min_battery s.now ≡ true
  unfolding guard_expression
  guard_expression-passes s h = elim (Option-cases E.guard) [
    | inl e ↦ rw e refl
    | inr (context, e) ↦ rw e (ground arith)
  ]

  send-IsSent :
      (command : Command) (s t : Live D)
      → IsQuiet s t
      → guard_passes s.min_battery s.now ≡ true
      → IsSent s (send D E command t).0
  unfolding send
  send-IsSent command s t q passes =
      let (sent, kept) = q in inr (command, ap (λ cs. command ∷ cs) sent, kept, passes)

  -- a call, the time that it takes, and a result
  paced-IsSent :
      (command : Command) (seconds : D.value) (result : Value → LiveResult) (s t : Live D)
      → IsQuiet s t
      → guard_passes s.min_battery s.now ≡ true
      → IsSent s
          (then_do D
            (send D E command t)
            (λ v u. then_do D (pace D E seconds u) (λ _ w. (w, ok (result v))))).0
  paced-IsSent command seconds result s t q passes =
      let sent = send-IsSent command s t q passes in
      let u = (send D E command t).0 in
      let paced = IsSent-IsQuiet s u (pace D E seconds u).0 sent (pace-IsQuiet seconds u) in
      then_do_after (IsSent s) (send D E command t) _ sent
        (λ v f. then_do_after (IsSent s) (pace D E seconds u) _ paced (λ a g. paced))

  express-IsSent :
      (command : Command) (seconds : D.value) (result : Value → LiveResult) (s : Live D)
      → IsSent s (express D E command seconds result s).0
  unfolding express
  express-IsSent command seconds result s =
      let q = guard_expression-IsQuiet s in
      then_do_after (IsSent s) (guard_expression D E s) _ (inl q) (λ a e.
        paced-IsSent command seconds result s (guard_expression D E s).0 q
          (guard_expression-passes s e))

  show_emotion-IsSent :
      (args : Value) (name : Text) (mode : Value) (s t : Live D)
      → IsQuiet s t
      → guard_passes s.min_battery s.now ≡ true
      → IsSent s (show_emotion D E args name mode t).0
  unfolding show_emotion
  show_emotion-IsSent args name mode s t q passes =
      paced-IsSent (send_emotion mode (get_key (codes "duration_ms") args)) (duration D E args)
        (answered_with name) s (activate D E mode t) q passes

  express_emotion-IsSent : (args : Value) (s : Live D) → IsSent s (express_emotion D E args s).0
  unfolding express_emotion
  express_emotion-IsSent args s =
      let q = guard_expression-IsQuiet s in
      let s1 = (guard_expression D E s).0 in
      then_do_after (IsSent s) (guard_expression D E s) _ (inl q) (λ a e.
        elim (Option-cases (available D E (items_of (codes "candidates") args))) [
          | inl f ↦ rw f (inl q)
          | inr (found, f) ↦
              rw f (show_emotion-IsSent args found.0 found.1 s s1 q (guard_expression-passes s e))
        ])

  pace_then-IsSent :
      (seconds : D.value) (result : LiveResult) (s : Live D)
      → IsSent s (then_do D (pace D E seconds s) (λ _ t. (t, ok result))).0
  pace_then-IsSent seconds result s =
      let q = pace-IsQuiet seconds s in
      then_do_after (IsSent s) (pace D E seconds s) _ (inl q) (λ a e. inl q)

  pub act-IsSent : (action args : Value) (s : Live D) → IsSent s (act D E action args s).0
  unfolding act
  act-IsSent action args s =
      let P = λ (m : Ran D LiveResult). IsSent s m.0 in
      let same : IsSent s s = inl (refl, (refl, refl, refl)) in
      if_intro P (text_is action (codes "native_dag")) same (
        if_intro P (text_is action (codes "wait")) (pace_then-IsSent (duration D E args) _ s) (
          if_intro P (text_is action (codes "head")) (express-IsSent _ _ answered s) (
            if_intro P (text_is action (codes "light")) (express-IsSent _ _ answered s) (
              if_intro P (text_is action (codes "emotion")) (express_emotion-IsSent args s)
                (if_intro P (text_is action (codes "say")) (express-IsSent _ _ answered s) same)))))

  -- the actions that call no service of the robot
  abbrev pub is_silent : Value → Bool
  is_silent action = text_is action (codes "native_dag") || text_is action (codes "wait")

  pub act-IsQuiet :
      (action args : Value) (s : Live D)
      → is_silent action ≡ true
      → IsQuiet s (act D E action args s).0
  unfolding act
  act-IsQuiet action args s h = elim (Bool-cases (text_is action (codes "native_dag"))) [
    | inl e ↦ rw e (refl, (refl, refl, refl))
    | inr e ↦
        let f : text_is action (codes "wait") ≡ true = ground arith in
        let q = pace-IsQuiet (duration D E args) s in
        rw (e, f) (then_do_after (IsQuiet s) (pace D E (duration D E args) s) _ q (λ a g. q))
  ]
