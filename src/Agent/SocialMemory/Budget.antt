-- ===== src/Agent/SocialMemory/Budget.antt =====
-- packages/native_agent/dogos_adapter/adapter.py: `_append_with_budget`.
use dogos_memory.Agent.SocialMemory.Search.{longest}
use dogos_memory.Agent.SocialMemory.Size.{Item, Response, response_size}
use dogos_memory.Base.{
  Bool, [], codes, false, if◌then◌else◌, leb, length, not, take, true, ℕ, ◌++◌, ◌∷◌,
}
use dogos_memory.Memory.Models.{is_empty}

-- `MAX_RECALL_OUTPUT_CHARS`
abbrev pub max_chars : ℕ
max_chars = 16000

-- the key of the list that an item is added to
pub data Category : Type 0 where
  facts_of thoughts_of : Category

-- `bucket.append(item)`
abbrev pub with_item : Category → Item → Response → Response
with_item facts_of i r = record r { facts = r.facts ++ i ∷ [] }
with_item thoughts_of i r = record r { thoughts = r.thoughts ++ i ∷ [] }

unfoldable pub within_budget : Response → Bool
within_budget r = leb (response_size r) max_chars

-- `content[:n] + _TRUNCATION_SUFFIX`
abbrev pub cut : ℕ → Item → Item
cut n i = record i { content = take n i.content ++ codes "…[truncated]" }

-- `fits`
unfoldable pub cut_fits : Category → Response → Item → ℕ → Bool
cut_fits category r candidate n = within_budget (with_item category (cut n candidate) r)

-- the candidate without its evidence
abbrev pub bare : Item → Item
bare i = record i { evidence_ids = []; evidence_ids_truncated = not (is_empty i.evidence_ids) }

-- the item cut to the longest content that fits
unfoldable pub cut_longest : Category → Item → Response → Response
cut_longest category candidate r =
    let n = length candidate.content in
    with_item category (cut (longest (cut_fits category r candidate) n 0 n) candidate) r

-- once the whole item does not fit
unfoldable pub append_cut : Category → Item → Response → Response
append_cut category i r =
    let marked : Item = record i { content_truncated = true } in
    if cut_fits category r marked 0
    then cut_longest category marked r
    else if cut_fits category r (bare marked) 0
    then cut_longest category (bare marked) r
    else r

-- `_append_with_budget`: the response after it, and whether later items may be attempted
unfoldable pub append_with_budget : Category → Item → Response → Response × Bool
append_with_budget category i r =
    if within_budget (with_item category i r)
    then (with_item category i r, true)
    else (append_cut category i (record r { truncated = true }), false)
