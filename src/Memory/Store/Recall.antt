-- ===== src/Memory/Store/Recall.antt =====
-- `recall` takes the newest completed facts and the newest thoughts about one peer.
use dogos_memory.Base.{
  Text, arith, false, leb, map, ok, refl, text_lt_asym, text_lt_negated, true, ◌↔◌, ◌≡◌, ◌≤◌,
}
use dogos_memory.Memory.Database.{Database, read_profile}
use dogos_memory.Memory.Models.{Profile, RecallRequest, RecallResult, StoredMemory}
use dogos_memory.Memory.Store.{
  affinity, facts, is_fact_of, is_thought_of, newer, recall, select, stored, thoughts,
}
use dogos_memory.Newest.{IsNewestOf, newest_lem}

newer_negated : (a b c : StoredMemory) → newer b a ≡ false → newer c b ≡ false → newer c a ≡ false
newer_negated a b c h k = ground (arith, text_lt_negated c.memory_id b.memory_id a.memory_id)

newer_asym : (a b : StoredMemory) → newer a b ≡ true → newer b a ≡ false
newer_asym a b h = ground (arith, text_lt_asym b.memory_id a.memory_id)

-- On a file of the given owner `recall` succeeds. Its facts are the newest completed facts about the
-- peer and its thoughts the newest thoughts about it, each list at most `limit` long and newest
-- first: a matching memory that is left out finds the list full and is newer than none in it. The
-- memories in a list are rows of the file, and none is there more often than the file has it.
-- The score is that of the peer, and it is familiar exactly if the score reaches the threshold.
pub recall_newest :
    (owner : Text) (request : RecallRequest) (db : Database) (p : Profile)
    → read_profile db owner ≡ ok p
    → (r : RecallResult) × (recall owner request db ≡ ok r)
      × IsNewestOf newer
          (is_fact_of request.peer_id)
          request.limit
          (map (stored db) db.memories)
          r.facts
      × IsNewestOf newer
          (is_thought_of request.peer_id)
          request.limit
          (map (stored db) db.memories)
          r.thoughts
      × (r.affinity ≡ affinity db request.peer_id)
      × ((r.familiar ≡ true) ↔ (p.familiar_threshold ≤ affinity db request.peer_id))
unfolding recall facts thoughts select
recall_newest owner request db p e = (
  record {
    profile = p;
    peer_id = request.peer_id;
    affinity = affinity db request.peer_id;
    familiar = leb p.familiar_threshold (affinity db request.peer_id);
    facts = facts db request.peer_id request.limit;
    thoughts = thoughts db request.peer_id request.limit;
  },
  rw e,
  newest_lem newer newer_asym newer_negated (is_fact_of request.peer_id) request.limit
      (map (stored db) db.memories),
  newest_lem newer newer_asym newer_negated (is_thought_of request.peer_id) request.limit
      (map (stored db) db.memories),
  refl,
  (λ h. ground arith, λ h. ground arith),
)
