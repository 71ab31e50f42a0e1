-- ===== src/Choreo/Book/Bounds.antt =====
-- A routine that was validated is short.
use mathlib.Core.Path.{subst}
use dogos_memory.Base.{
  All, List, Option, Option-cases, Text, [], ap, arith, codes, contains, false, inl, inr,
  is_distinct, is_some, length, none, refl, some, sym, text_eq, text_eq_iff, true, ℕ, ◌+◌, ◌∙◌, ◌∷◌,
  ◌≡◌, ◌≤◌,
}
use dogos_memory.Choreo.Book.{step_duration, timing_valid, validate_step, validate_steps}
use dogos_memory.Value.{
  Value, array, array_of, boolean, double, get_key, infinite, int_between, integer, not_a_number,
  null, object, text, text_of,
}

abbrev pub step_id : Value → Option Text
step_id step = text_of (get_key (codes "id") step)

abbrev pub cons_some : Option Text → List Text → List Text
cons_some none ids = ids
cons_some (some id) ids = id ∷ ids

abbrev pub add_some : Option ℕ → ℕ → ℕ
add_some none n = n
add_some (some m) n = m + n

-- The identifiers of the steps, in order.
abbrev pub ids_of : List Value → List Text
ids_of [] = []
ids_of (step ∷ steps) = cons_some (step_id step) (ids_of steps)

-- The milliseconds that the steps take by their estimates.
abbrev pub total_of : List Value → ℕ
total_of [] = 0
total_of (step ∷ steps) = add_some (step_duration step) (total_of steps)

-- The step has an identifier and an estimate.
abbrev pub IsEstimated : Value → Type 0
IsEstimated step = (is_some (step_id step) ≡ true) × (is_some (step_duration step) ≡ true)

validate_step-inv :
    (seen : List Text) (step : Value) {id : Text} {ms : ℕ}
    → validate_step seen step ≡ some (id, ms)
    → (step_id step ≡ some id) × (step_duration step ≡ some ms) × (contains id seen ≡ false)
unfolding validate_step
validate_step-inv seen step {id} {ms} h = elim (Option-cases (step_id step)) [
  | inl e ↦ ground arith
  | inr (t, e) ↦ elim (Option-cases (step_duration step)) [
    | inl f ↦ ground arith
    | inr (n, f) ↦ (ground arith, ground arith, ground arith)
  ]
]

-- None of the identifiers was seen before.
abbrev IsFresh : List Text → List Text → Type 0
IsFresh seen ids = All (λ id. contains id seen ≡ false) ids

contains-cons :
    (x id : Text) (seen : List Text)
    → contains x (id ∷ seen) ≡ false
    → (text_eq x id ≡ false) × (contains x seen ≡ false)
contains-cons x id seen h = (ground arith, ground arith)

IsFresh-tail :
    (id : Text) (seen ids : List Text)
    → IsFresh (id ∷ seen) ids
    → (contains id ids ≡ false) × IsFresh seen ids
IsFresh-tail id seen [] f = (refl, tt)
IsFresh-tail id seen (x ∷ ids) (h, f) =
    let (ne, old) = contains-cons x id seen h in
    let (not_in, rest) = IsFresh-tail id seen ids f in
    (ground (arith, text_eq_iff x id, text_eq_iff id x), (old, rest))

validate_steps-inv :
    (seen : List Text) (steps : List Value) {total : ℕ}
    → validate_steps seen steps ≡ some total
    → All IsEstimated steps
      × (total ≡ total_of steps)
      × (is_distinct (ids_of steps) ≡ true)
      × IsFresh seen (ids_of steps)
unfolding validate_steps
validate_steps-inv seen [] h = (tt, ground arith, refl, tt)
validate_steps-inv seen (step ∷ steps) {total} h = elim (Option-cases (validate_step seen step)) [
  | inl e ↦ ground arith
  | inr ((id, ms), e) ↦ elim (Option-cases (validate_steps (id ∷ seen) steps)) [
    | inl f ↦ ground arith
    | inr (rest, f) ↦
        let total_eq : total ≡ ms + rest = ground arith in
        let (named, timed, new) = validate_step-inv seen step e in
        let (estimated, sum, distinct, fresh) = validate_steps-inv (id ∷ seen) steps f in
        let (not_in, old) = IsFresh-tail id seen (ids_of steps) fresh in
        (
          ((ap is_some named, ap is_some timed), estimated),
          total_eq ∙ ap (λ n. ms + n) sum ∙ ap (λ o. add_some o (total_of steps)) (sym timed),
          subst (λ o. is_distinct (cons_some o (ids_of steps)) ≡ true) (sym named) (ground arith),
          subst (λ o. IsFresh seen (cons_some o (ids_of steps))) (sym named) (new, old),
        )
  ]
]

int_between-bound : (low high : ℕ) (v : Value) {n : ℕ} → int_between low high v ≡ some n → n ≤ high
unfolding int_between
int_between-bound low high (integer negative n) h = ground arith
int_between-bound low high null h = cc h
int_between-bound low high (boolean b) h = cc h
int_between-bound low high (double negative n) h = cc h
int_between-bound low high (infinite negative) h = cc h
int_between-bound low high not_a_number h = cc h
int_between-bound low high (text t) h = cc h
int_between-bound low high (array vs) h = cc h
int_between-bound low high (object es) h = cc h

-- A routine whose timing was validated has 1 to 12 steps, each with an estimate and an identifier of its
-- own, and the estimates add up to at most its longest duration, which is 1000 to 30000 milliseconds.
pub timing_valid-IsShort :
    (routine : Value)
    → timing_valid routine ≡ true
    → (steps : List Value) × (longest : ℕ) × (array_of (get_key (codes "steps") routine)
        ≡ some steps)
      × (int_between 1000 30000 (get_key (codes "max_duration_ms") routine) ≡ some longest)
      × (1 ≤ length steps)
      × (length steps ≤ 12)
      × All IsEstimated steps
      × (is_distinct (ids_of steps) ≡ true)
      × (total_of steps ≤ longest)
      × (longest ≤ 30000)
unfolding timing_valid
timing_valid-IsShort routine h =
    elim (Option-cases (int_between 1000 30000 (get_key (codes "max_duration_ms") routine))) [
      | inl e ↦ ground arith
      | inr (longest, e) ↦ elim (Option-cases (array_of (get_key (codes "steps") routine))) [
        | inl f ↦ ground arith
        | inr (steps, f) ↦ elim (Option-cases (validate_steps [] steps)) [
          | inl g ↦ ground arith
          | inr (total, g) ↦
              let (estimated, sum, distinct, _) = validate_steps-inv [] steps g in
              (
                steps,
                longest,
                f,
                e,
                ground arith,
                ground arith,
                estimated,
                distinct,
                ground (arith, sum),
                int_between-bound 1000 30000 (get_key (codes "max_duration_ms") routine) e,
              )
        ]
      ]
    ]
