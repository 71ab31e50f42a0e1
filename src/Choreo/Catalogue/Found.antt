-- ===== src/Choreo/Catalogue/Found.antt =====
-- A routine of a book that was accepted is found by its identifier and by each of its triggers.
use mathlib.Core.List.{Memᴰ}
use mathlib.Core.List.Memᴰ
use mathlib.Core.Path.{subst}
use dogos_memory.Base.{
  List, Result-cases, Text, [], ap, arith, codes, contains, false, inl, inr, map, ok, refl, some,
  sym, text_eq, text_eq_iff, text_eq_refl, true, ◌++◌, ◌∙◌, ◌∷◌, ◌≡◌,
}
use dogos_memory.Choreo.Catalogue.{
  RoutineBook, Seen, TriggerKey, all_triggers, by_id, get_routine, items_of, key_eq, load,
  match_trigger, read, routine_valid, trigger_key, triggers_of, validate_personas, validate_routine,
  validate_routines, validate_triggers,
}
use dogos_memory.Choreo.Dict.{IsNew, append-IsNew, find, find-put_all, put_all, see}
use dogos_memory.Value.{Value, get_key}

key_eq_refl : (k : TriggerKey) → key_eq k k ≡ true
unfolding key_eq
key_eq_refl k = rw (text_eq_refl k.persona, text_eq_refl k.kind, text_eq_refl k.value) refl

text_eq-alike : (k l m : Text) → text_eq k l ≡ true → text_eq k m ≡ text_eq l m
text_eq-alike k l m h = ap (λ t. text_eq t m) ((text_eq_iff k l).0 h)

key_eq-alike : (k l m : TriggerKey) → key_eq k l ≡ true → key_eq k m ≡ key_eq l m
unfolding key_eq
key_eq-alike k l m h =
    rw
      (
        text_eq-alike k.persona l.persona m.persona (ground arith),
        text_eq-alike k.kind l.kind m.kind (ground arith),
        text_eq-alike k.value l.value m.value (ground arith),
      )
      refl

Memᴰ-map : {A B : Type 0} (f : A → B) (a : A) (xs : List A) → Memᴰ a xs → Memᴰ (f a) (map f xs)
Memᴰ-map f a [] m = elim m [ ]
Memᴰ-map f a (x ∷ xs) (Memᴰ.head e) = Memᴰ.head (ap f e)
Memᴰ-map f a (x ∷ xs) (Memᴰ.tail m) = Memᴰ.tail (Memᴰ-map f a xs m)

map-append : {A B : Type 0} (f : A → B) (xs ys : List A) → map f (xs ++ ys) ≡ map f xs ++ map f ys
map-append f [] ys = refl
map-append f (x ∷ xs) ys = ap (λ t. f x ∷ t) (map-append f xs ys)

map-map :
    {A B C : Type 0} (g : B → C) (f : A → B) (xs : List A)
    → map g (map f xs) ≡ map (λ x. g (f x)) xs
map-map g f [] = refl
map-map g f (x ∷ xs) = ap (λ t. g (f x) ∷ t) (map-map g f xs)

routine_valid-contains :
    (personas ids : List Text) (routine : Value)
    → routine_valid personas ids routine ≡ true
    → contains (read (codes "id") routine) ids ≡ false
unfolding routine_valid
routine_valid-contains personas ids routine h = ground arith

find-by_id :
    (routine : Value) (routines : List Value)
    → IsNew text_eq [] (map (read (codes "id")) routines)
    → Memᴰ routine routines
    → find text_eq (read (codes "id") routine) (put_all text_eq [] (by_id routines)) ≡ some routine
find-by_id routine routines new m =
    find-put_all text_eq text_eq_refl text_eq-alike [] (read (codes "id") routine) routine
      (by_id routines) [] (Memᴰ-map (λ r. (read (codes "id") r, r)) routine routines m)
      (subst (IsNew text_eq []) (sym (map-map (λ p. p.0) (λ r. (read (codes "id") r, r)) routines))
        new)

module _ (casefold : Text → Text) where
  -- The keys of a routine are new, and are seen from there on.
  validate_triggers-IsNew :
      (persona : Text) (items : List Value) (seen : List TriggerKey) {seen' : List TriggerKey}
      → validate_triggers casefold persona items seen ≡ ok seen'
      → IsNew key_eq seen (map (trigger_key casefold persona) items)
        × (seen' ≡ see seen (map (trigger_key casefold persona) items))
  unfolding validate_triggers see
  validate_triggers-IsNew persona [] seen h = (tt, ground arith)
  validate_triggers-IsNew persona (trigger ∷ items) seen {seen'} h =
      let rest : validate_triggers casefold persona items
            (trigger_key casefold persona trigger ∷ seen)
          ≡ ok seen' =
        ground arith in
      let (new, same) =
        validate_triggers-IsNew persona items (trigger_key casefold persona trigger ∷ seen) rest in
      ((ground arith, new), same)

  abbrev keys_of : List Value → List TriggerKey
  keys_of routines = map (λ p. p.0) (all_triggers casefold routines)

  keys_of-triggers :
      (routine : Value)
      → map (λ p. p.0) (triggers_of casefold routine)
        ≡ map
            (trigger_key casefold (read (codes "persona") routine))
            (items_of (codes "triggers") routine)
  unfolding triggers_of
  keys_of-triggers routine = map-map _ _ (items_of (codes "triggers") routine)

  validate_routine-inv :
      (personas : List Text) (routine : Value) (seen : Seen) {seen' : Seen}
      → validate_routine casefold personas routine seen ≡ ok seen'
      → (contains (read (codes "id") routine) seen.ids ≡ false)
        × (seen'.ids ≡ read (codes "id") routine ∷ seen.ids)
        × (validate_triggers casefold
              (read (codes "persona") routine)
              (items_of (codes "triggers") routine)
              seen.triggers
            ≡ ok seen'.triggers)
  unfolding validate_routine
  validate_routine-inv personas routine seen {seen'} h =
      elim (Result-cases (
        validate_triggers casefold (read (codes "persona") routine)
          (items_of (codes "triggers") routine) seen.triggers)) [
            | inr (e, p) ↦ ground arith
            | inl (triggers, p) ↦ (
              routine_valid-contains personas seen.ids routine (ground arith),
              ground arith,
              p ∙ ground arith,
            )
          ]

  validate_routines-IsNew :
      (personas : List Text) (routines : List Value) (seen : Seen) {seen' : Seen}
      → validate_routines casefold personas routines seen ≡ ok seen'
      → IsNew text_eq seen.ids (map (read (codes "id")) routines)
        × IsNew key_eq seen.triggers (keys_of routines)
  unfolding validate_routines all_triggers
  validate_routines-IsNew personas [] seen h = (tt, tt)
  validate_routines-IsNew personas (routine ∷ routines) seen {seen'} h =
      elim (Result-cases (validate_routine casefold personas routine seen)) [
        | inr (e, p) ↦ ground arith
        | inl (next, p) ↦
            let (fresh, ids, triggers) = validate_routine-inv personas routine seen p in
            let (keys_new, same) = validate_triggers-IsNew _ _ seen.triggers triggers in
            let rest : validate_routines casefold personas routines next ≡ ok seen' =
              ground arith in
            let (ids_new, rest_new) = validate_routines-IsNew personas routines next rest in
            (
              (fresh, subst (λ s. IsNew text_eq s (map (read (codes "id")) routines)) ids ids_new),
              rw
                  (
                    map-append (λ p. p.0) (triggers_of casefold routine)
                        (all_triggers casefold routines),
                    keys_of-triggers routine,
                  )
                  (append-IsNew key_eq seen.triggers _ (keys_of routines) keys_new
                    (subst (λ s. IsNew key_eq s (keys_of routines)) same rest_new)),
            )
      ]

  all_triggers-Memᴰ :
      (routine trigger : Value) (routines : List Value)
      → Memᴰ routine routines
      → Memᴰ trigger (items_of (codes "triggers") routine)
      → Memᴰ
          (trigger_key casefold (read (codes "persona") routine) trigger, read (codes "id") routine)
          (all_triggers casefold routines)
  unfolding all_triggers triggers_of
  all_triggers-Memᴰ routine trigger [] m n = elim m [ ]
  all_triggers-Memᴰ routine trigger (r ∷ routines) (Memᴰ.head e) n =
      Memᴰ.append_left (all_triggers casefold routines) (
        subst
          (λ x.
            Memᴰ
              (
                trigger_key casefold (read (codes "persona") routine) trigger,
                read (codes "id") routine,
              )
              (triggers_of casefold x))
          e (Memᴰ-map _ trigger _ n))
  all_triggers-Memᴰ routine trigger (r ∷ routines) (Memᴰ.tail m) n =
      Memᴰ.append_right (triggers_of casefold r) (all_triggers-Memᴰ routine trigger routines m n)

  -- In a book that is accepted, `get` gives each routine at its identifier, and `match` with the
  -- routine's persona gives that identifier at each of the routine's triggers.
  pub load-match :
      (payload : Value) (book : RoutineBook) (routine trigger : Value)
      → load casefold payload ≡ ok book
      → Memᴰ routine (items_of (codes "routines") payload)
      → Memᴰ trigger (items_of (codes "triggers") routine)
      → (get_routine book (read (codes "id") routine) ≡ ok routine)
        × (match_trigger casefold book
              (read (codes "kind") trigger)
              (read (codes "value") trigger)
              (some (read (codes "persona") routine))
            ≡ some (read (codes "id") routine))
  unfolding load get_routine match_trigger trigger_key
  load-match payload book routine trigger h m n =
      elim (Result-cases (validate_personas (get_key (codes "personas") payload))) [
        | inr (e, p) ↦ ground arith
        | inl (personas, p) ↦
            elim (Result-cases (
              validate_routines casefold personas (items_of (codes "routines") payload)
                (record { ids = []; triggers = [] }))) [
                  | inr (e, q) ↦ ground arith
                  | inl (seen, q) ↦
                      let (ids, keys) =
                        validate_routines-IsNew personas (items_of (codes "routines") payload) _
                          q in
                      let routines : book.routines
                          ≡ put_all text_eq [] (by_id (items_of (codes "routines") payload)) =
                        ground arith in
                      let triggers : book.triggers
                          ≡ put_all key_eq []
                              (all_triggers casefold (items_of (codes "routines") payload)) =
                        ground arith in
                      (
                        rw routines (
                            rw (find-by_id routine (items_of (codes "routines") payload) ids m)
                              refl),
                        rw triggers (
                            find-put_all key_eq key_eq_refl key_eq-alike [] _ _ _ []
                              (all_triggers-Memᴰ routine trigger _ m n) keys),
                      )
                ]
      ]
