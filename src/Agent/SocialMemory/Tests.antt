-- ===== src/Agent/SocialMemory/Tests.antt =====
-- Concrete responses of packages/native_agent/dogos_adapter/adapter.py: tests of the model, and a theorem
-- at an input where its hypothesis holds.
use dogos_memory.Agent.SocialMemory.Bounded.{IsBoundedAnswer, recall_social_memory-IsBoundedAnswer}
use dogos_memory.Agent.SocialMemory.Budget.{
  append_cut, append_with_budget, cut, cut_fits, cut_longest, facts_of, with_item, within_budget,
}
use dogos_memory.Agent.SocialMemory.Longest.{IsLastItem, append_with_budget_longest, marked}
use dogos_memory.Agent.SocialMemory.Recall.{
  add_items, filled, is_printable, memory_item, recall_social_memory,
}
use dogos_memory.Agent.SocialMemory.Search.{longest}
use dogos_memory.Agent.SocialMemory.Size.{
  Item, Response, char_size, chars_size, digit_count, item_size, joined, response_size,
}
use dogos_memory.Base.{
  Text, [], codes, false, none, ok, refl, some, suc, text_eq, true, zero, ℕ, ◌∷◌, ◌≡◌,
}
use dogos_memory.Memory.Database.{Database, Row, check_schema, new_file, read_profile}
use dogos_memory.Memory.Models.{chat, completed, live, operator}
use dogos_memory.Memory.Store.{affinity, evidence_of, facts, recall, select, stored, thoughts}
use dogos_memory.Spaces.{drop_spaces, is_space}
use dogos_memory.Value.{int_between, integer}

-- a text of characters that are written with six characters each
abbrev controls : ℕ → Text
controls zero = []
controls (suc n) = 1 ∷ controls n

abbrev long_talk : Item
long_talk = record {
  memory_id = codes "m1";
  kind = chat;
  event_type = codes "talk";
  content = codes "the other dog came close and wagged its tail";
  content_truncated = false;
  occurred_at_ms = 1000;
  source = operator;
  result = completed;
  importance = 5;
  evidence_ids = [];
  evidence_ids_truncated = false;
}

abbrev nearly_full : Response
nearly_full = record {
  owner_id = controls 2570;
  peer_id = codes "dog_b";
  affinity = 20;
  familiar = false;
  facts = [];
  thoughts = [];
  truncated = false;
}

sizes : Unit {0}
unfolding response_size joined chars_size char_size digit_count item_size within_budget cut_fits
    append_with_budget append_cut cut_longest longest
sizes = tt

small_size : response_size (record nearly_full { owner_id = codes "dog_a" }) ≡ 284
unfolding sizes
small_size = refl

-- 22 characters of the content fit
cut_talk : Response
cut_talk = with_item facts_of (cut 22 (marked long_talk)) (record nearly_full { truncated = true })

talk_cut : append_with_budget facts_of long_talk nearly_full ≡ (cut_talk, false)
unfolding sizes cut_talk
talk_cut = refl

append_with_budget_longest_example :
    (within_budget (with_item facts_of long_talk nearly_full) ≡ false)
    × IsLastItem facts_of long_talk (record nearly_full { truncated = true }) cut_talk
append_with_budget_longest_example =
    append_with_budget_longest facts_of long_talk nearly_full talk_cut

abbrev talk_row : Row
talk_row = record {
  payload = record {
    memory_id = codes "m1";
    session_id = codes "s1";
    peer_id = codes "dog_b";
    kind = chat;
    event_type = codes "talk";
    content = codes "wagged its tail";
    occurred_at_ms = 1000;
    source = operator;
    result = completed;
    importance = 5;
    affinity_delta = 0;
  };
  recorded_at_ms = 1001;
  evidence_anchor_id = none;
}

abbrev talk_file : Database
talk_file = record new_file {
  user_version = 1;
  has_tables = true;
  profile = some (record {
    dog_id = codes "dog_a";
    name = codes "A";
    personality = codes "calm";
    familiar_threshold = 50;
    mode = live;
  });
  memories = talk_row ∷ [];
}

abbrev talk_response : Response
talk_response = record {
  owner_id = codes "dog_a";
  peer_id = codes "dog_b";
  affinity = 0;
  familiar = false;
  facts =
      memory_item (record {
        input = record { payload = talk_row.payload; evidence_ids = [] };
        recorded_at_ms = 1001;
      })
      ∷ [];
  thoughts = [];
  truncated = false;
}

talk_recalled :
    recall_social_memory (codes " dog_a ") (codes "dog_b") (integer false 3) talk_file
    ≡ ok talk_response
unfolding sizes recall_social_memory is_printable drop_spaces is_space int_between text_eq recall
    read_profile check_schema affinity facts thoughts select stored evidence_of filled add_items
talk_recalled = refl

recall_social_memory-IsBoundedAnswer_example :
    IsBoundedAnswer
      (recall_social_memory (codes " dog_a ") (codes "dog_b") (integer false 3) talk_file)
recall_social_memory-IsBoundedAnswer_example =
    recall_social_memory-IsBoundedAnswer (codes " dog_a ") (codes "dog_b") (integer false 3)
      talk_file
