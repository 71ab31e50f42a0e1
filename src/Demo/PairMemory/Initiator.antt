-- ===== src/Demo/PairMemory/Initiator.antt =====
-- The actor of a session's first step is read back from the identifier of its completion.
use mathlib.Core.List.{reverse_aux}
use dogos_memory.Base.{
  Bool, List, Text, [], all, ap, arith, codes, false, if◌then◌else◌, inl, inr, none, not, refl,
  some, suc, text_eq, text_eq_iff, text_eq_refl, true, zero, ℕ, ◌++◌, ◌==◌, ◌∙◌, ◌∷◌, ◌≡◌, ◌⊎◌,
}
use dogos_memory.Demo.PairMemory.{rsplit, rsplit_aux, step_one_actor, step_one_of}
use dogos_memory.Demo.Persistence.{completed_suffix, completion_memory_id}
use dogos_memory.Demo.Session.{
  ActionCommand, check_command, command_id_of, digit, is_session_char, is_session_identifier, slash,
}

abbrev pub has_no_slash : Text → Bool
has_no_slash t = all (λ c. not (c == slash)) t

reverse_aux-append :
    (xs ys acc : Text) → reverse_aux (xs ++ ys) acc ≡ reverse_aux ys (reverse_aux xs acc)
reverse_aux-append [] ys acc = refl
reverse_aux-append (x ∷ xs) ys acc = reverse_aux-append xs ys (x ∷ acc)

append_nil : (xs : Text) → xs ++ [] ≡ xs
append_nil [] = refl
append_nil (x ∷ xs) = ap (λ t. x ∷ t) (append_nil xs)

append_assoc : (xs ys zs : Text) → (xs ++ ys) ++ zs ≡ xs ++ (ys ++ zs)
append_assoc [] ys zs = refl
append_assoc (x ∷ xs) ys zs = ap (λ t. x ∷ t) (append_assoc xs ys zs)

rsplit_aux-other :
    (k c : ℕ) (rest part : Text) (parts : List Text)
    → (c == slash) ≡ false
    → rsplit_aux k (c ∷ rest) part parts ≡ rsplit_aux k rest (c ∷ part) parts
unfolding rsplit_aux
rsplit_aux-other zero c rest part parts h = refl
rsplit_aux-other (suc k) c rest part parts h = rw h refl

-- A part without a slash is read as a whole.
rsplit_aux-part :
    (k : ℕ) (s rest part : Text) (parts : List Text)
    → has_no_slash s ≡ true
    → rsplit_aux k (reverse_aux s rest) part parts ≡ rsplit_aux k rest (s ++ part) parts
rsplit_aux-part k [] rest part parts h = refl
rsplit_aux-part k (c ∷ s) rest part parts h =
    rsplit_aux-part k s (c ∷ rest) part parts (ground arith)
    ∙ rsplit_aux-other k c rest (s ++ part) parts (ground arith)

module _ (session actor : Text) (step : ℕ) (a : has_no_slash session ≡ true)
    (b : has_no_slash actor ≡ true) where
  abbrev tail : Text
  tail = slash ∷ digit step ∷ completed_suffix

  reversed :
      reverse_aux (session ++ (slash ∷ (actor ++ tail))) []
      ≡ reverse_aux tail (reverse_aux actor (slash ∷ reverse_aux session []))
  reversed =
      reverse_aux-append session (slash ∷ (actor ++ tail)) []
      ∙ reverse_aux-append actor tail (slash ∷ reverse_aux session [])

  rsplit-parts :
      (digit step == slash) ≡ false
      → rsplit 3 (session ++ (slash ∷ (actor ++ tail)))
        ≡ session ∷ actor ∷ (digit step ∷ []) ∷ codes "completed" ∷ []
  unfolding rsplit rsplit_aux
  rsplit-parts d =
      let later : List Text = (digit step ∷ []) ∷ codes "completed" ∷ [] in
      ap (λ t. rsplit_aux 3 t [] []) reversed
      ∙ rsplit_aux-other 2 (digit step) (slash ∷ reverse_aux actor (slash ∷ reverse_aux session []))
          [] (codes "completed" ∷ []) d
      ∙ rsplit_aux-part 1 actor (slash ∷ reverse_aux session []) [] later b
      ∙ rsplit_aux-part 0 session [] [] ((actor ++ []) ∷ later) a
      ∙ ap (λ t. t ∷ (actor ++ []) ∷ later) (append_nil session)
      ∙ ap (λ t. session ∷ t ∷ later) (append_nil actor)

  completion-parts :
      (c : ActionCommand)
      → c.command_id ≡ command_id_of session actor step
      → completion_memory_id c ≡ session ++ (slash ∷ (actor ++ tail))
  unfolding completion_memory_id command_id_of
  completion-parts c h =
      ap (λ t. t ++ completed_suffix) h
      ∙ append_assoc session (slash ∷ (actor ++ (slash ∷ digit step ∷ []))) completed_suffix
      ∙ ap (λ t. session ++ (slash ∷ t))
          (append_assoc actor (slash ∷ digit step ∷ []) completed_suffix)

no_slash : (c : ℕ) → is_session_char c ≡ true → not (c == slash) ≡ true
no_slash c h = ground arith

session_chars : (t : Text) → all is_session_char t ≡ true → has_no_slash t ≡ true
session_chars [] h = refl
session_chars (c ∷ t) h = ground (arith, no_slash c, session_chars t)

check_command-step : (c : ActionCommand) → check_command c ≡ true → (c.step ≡ 1) ⊎ (c.step ≡ 2)
unfolding check_command
check_command-step c h = ground arith

check_command-session :
    (c : ActionCommand)
    → check_command c ≡ true
    → (c.command_id ≡ command_id_of c.session_id c.actor_id c.step)
      × (has_no_slash c.session_id ≡ true)
unfolding check_command is_session_identifier
check_command-session c h = (
  ground (arith, text_eq_iff c.command_id (command_id_of c.session_id c.actor_id c.step)),
  session_chars c.session_id (ground arith),
)

step_one_actor-parts :
    (c : ActionCommand) (step : ℕ)
    → check_command c ≡ true
    → has_no_slash c.actor_id ≡ true
    → c.step ≡ step
    → (digit step == slash) ≡ false
    → step_one_actor c.session_id (completion_memory_id c)
      ≡ (if text_eq (digit step ∷ []) (codes "1") then some c.actor_id else none)
unfolding step_one_actor
step_one_actor-parts c step v b s d =
    let (id, a) = check_command-session c v in
    ap (λ t. step_one_of c.session_id (rsplit 3 t))
      (completion-parts c.session_id c.actor_id step a b c
        (id ∙ ap (command_id_of c.session_id c.actor_id) s))
    ∙ ap (step_one_of c.session_id) (rsplit-parts c.session_id c.actor_id step a b d)
    ∙ rw (text_eq_refl c.session_id) (ground (arith, text_eq_refl (codes "completed")))

-- From the identifier of the completion of a command that meets its contract, the actor is read back if
-- it is the first step of its session, and no actor if it is the second, where the actor's identifier
-- holds no slash.
pub step_one_actor-completion :
    (c : ActionCommand)
    → check_command c ≡ true
    → has_no_slash c.actor_id ≡ true
    → ((c.step ≡ 1) × (step_one_actor c.session_id (completion_memory_id c) ≡ some c.actor_id))
      ⊎ ((c.step ≡ 2) × (step_one_actor c.session_id (completion_memory_id c) ≡ none))
unfolding text_eq
step_one_actor-completion c v b = elim (check_command-step c v) [
  | inl s ↦ inl (s, step_one_actor-parts c 1 v b s refl)
  | inr s ↦ inr (s, step_one_actor-parts c 2 v b s refl)
]
