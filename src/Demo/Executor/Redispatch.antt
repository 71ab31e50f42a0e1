-- ===== src/Demo/Executor/Redispatch.antt =====
-- A command whose completion is on record is not dispatched again.
use dogos_memory.Base.{
  Option, Result, Text, ap, arith, err, inl, inr, none, ok, refl, require, some, sym, ◌&&◌, ◌∙◌,
  ◌≡◌, ◌≢◌, ◌⊎◌,
}
use dogos_memory.Demo.Executor.{execute, execute_from}
use dogos_memory.Demo.Models.{DemoError, completion_conflict, invalid_recovered_completion}
use dogos_memory.Demo.Persistence.{
  RecoveryOutcome, agrees, anchor, check_existing, completion_memory_id, completion_source, find_0,
  find_1, found, persist, recover, recover_from, recovered_receipt,
}
use dogos_memory.Demo.Persistence.Keeps.{SameDispatched, recover-IsQuiet}
use dogos_memory.Demo.Session.{ActionCommand}
use dogos_memory.Demo.World.{Runtime, World, go_on, lift}
use dogos_memory.Demo.World.Keeps.{bind-inv}
use dogos_memory.Memory.Database.{Database, check_schema, read_profile}
use dogos_memory.Memory.Models.{StoredMemory}
use dogos_memory.Memory.Store.{find_memory, get}

anchor-none : (m0 m1 : Option StoredMemory) → anchor m0 m1 ≡ none → (m0 ≡ none) × (m1 ≡ none)
anchor-none none m1 h = (refl, h)
anchor-none (some m) m1 h = cc

found-none :
    (owner id : Text) (db : Database) → found (get owner id db) ≡ ok none → find_memory db id ≡ none
unfolding get read_profile check_schema
found-none owner id db h = ground arith

module _ (rt : Runtime) (c : ActionCommand) where
  open rt use {binding_0, binding_1}

  recover_from-none-same :
      (m0 m1 a : Option StoredMemory) (w : World) {w' : World}
      → a ≡ none
      → recover_from rt c m0 m1 a w ≡ (ok none, w')
      → w' ≡ w
  recover_from-none-same m0 m1 none w e h = sym (ap (λ x. x.1) h)
  recover_from-none-same m0 m1 (some a) w e h = absurd (cc e)

  recover_from-none :
      (m0 m1 a : Option StoredMemory) (w : World) {w' : World}
      → recover_from rt c m0 m1 a w ≡ (ok none, w')
      → a ≡ none
  recover_from-none m0 m1 none w h = refl
  recover_from-none m0 m1 (some a) w h =
      let (_, _, h1) =
        bind-inv (lift (require (check_existing c a) invalid_recovered_completion)) _ w h in
      let (_, _, h2) =
        bind-inv (lift (require (agrees a m0 && agrees a m1) completion_conflict)) _ w h1 in
      let (source, _, h3) = bind-inv (lift (completion_source a.source)) _ w h2 in
      let (_, _, h4) =
        bind-inv (persist rt c (recovered_receipt c source a.occurred_at_ms)) _ w h3 in
      cc h4

  -- Nothing is recovered only where neither file holds the completion.
  pub recover-none :
      (w : World) {w' : World}
      → recover rt c w ≡ (ok none, w')
      → (find_memory w.db_0 (completion_memory_id c) ≡ none)
        × (find_memory w.db_1 (completion_memory_id c) ≡ none)
  unfolding recover find_0 find_1
  recover-none w h =
      let (m0, p, h1) = bind-inv (find_0 rt (completion_memory_id c)) _ w h in
      let (m1, q, h2) = bind-inv (find_1 rt (completion_memory_id c)) _ w h1 in
      let (x, y) = anchor-none m0 m1 (recover_from-none m0 m1 (anchor m0 m1) w h2) in
      (
        found-none binding_0.owner_id (completion_memory_id c) w.db_0 (ap (λ r. r.0) p ∙ ap ok x),
        found-none binding_1.owner_id (completion_memory_id c) w.db_1 (ap (λ r. r.0) q ∙ ap ok y),
      )

  -- Nothing changes where nothing is recovered.
  pub recover-none-same : (w : World) {w' : World} → recover rt c w ≡ (ok none, w') → w' ≡ w
  unfolding recover find_0 find_1
  recover-none-same w h =
      let (m0, p, h1) = bind-inv (find_0 rt (completion_memory_id c)) _ w h in
      let (m1, q, h2) = bind-inv (find_1 rt (completion_memory_id c)) _ w h1 in
      recover_from-none-same m0 m1 (anchor m0 m1) w (recover_from-none m0 m1 (anchor m0 m1) w h2) h2

  go_on-recovered :
      (w : World) (x : Result DemoError RecoveryOutcome × World)
      → SameDispatched w x.1
      → (x.0 ≢ ok none)
      → SameDispatched w (go_on (execute_from rt c) x).1
  go_on-recovered w (ok (some r), w') s n = s
  go_on-recovered w (ok none, w') s n = absurd (n refl)
  go_on-recovered w (err e, w') s n = s

  -- A command whose completion either file holds under its identifier is never handed to an adapter,
  -- however `execute` ends.
  pub execute_recorded :
      (w : World) (m : StoredMemory)
      → (find_memory w.db_0 (completion_memory_id c) ≡ some m)
        ⊎ (find_memory w.db_1 (completion_memory_id c) ≡ some m)
      → (execute rt c w).1.dispatched ≡ w.dispatched
  unfolding execute
  execute_recorded w m held =
      go_on-recovered w (recover rt c w) ((recover-IsQuiet rt c).at w).0 λ n.
        let (x, y) = recover-none w (ap (λ r. (r, (recover rt c w).1)) n) in
        elim held [ inl p ↦ cc (p, x) | inr q ↦ cc (q, y) ]
