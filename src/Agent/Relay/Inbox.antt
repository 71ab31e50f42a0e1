-- ===== src/Agent/Relay/Inbox.antt =====
-- What an agent reads in its inbox.
use dogos_memory.Agent.Relay.{
  Message, inbox_item, inbox_rows, is_addressed, is_safe_id, list_inbox, sent_later,
}
use dogos_memory.Base.{
  List, Text, arith, false, keep, map, ok, sort_by, take, text_lt_asym, text_lt_negated, true, ℕ,
  ◌≡◌, ◌≤◌,
}
use dogos_memory.Newest.{IsNewestOf, newest_lem}
use dogos_memory.Value.{int_between, integer}

sent_later_asym : (a b : Message) → sent_later a b ≡ true → sent_later b a ≡ false
sent_later_asym a b h = ground (arith, text_lt_asym b.message_id a.message_id)

sent_later_negated :
    (a b c : Message) → sent_later b a ≡ false → sent_later c b ≡ false → sent_later c a ≡ false
sent_later_negated a b c h k =
    ground (arith, text_lt_negated c.message_id b.message_id a.message_id)

-- With safe endpoints and a limit from 1 to 20 the inbox can be read. It shows the newest messages from
-- the peer to the owner, at most as many as the limit and newest first: one that is left out finds the
-- list full and is newer than none in it.
pub list_inbox_newest :
    (owner peer : Text) (limit : ℕ) (rows : List Message)
    → is_safe_id owner ≡ true
    → is_safe_id peer ≡ true
    → 1 ≤ limit
    → limit ≤ 20
    → (found : List Message) × (list_inbox owner peer (integer false limit) rows
        ≡ ok (map inbox_item found))
      × IsNewestOf sent_later (is_addressed owner peer) limit rows found
unfolding list_inbox inbox_rows int_between
list_inbox_newest owner peer limit rows a b low high = (
  take limit (sort_by sent_later (keep (is_addressed owner peer) rows)),
  ground arith,
  newest_lem sent_later sent_later_asym sent_later_negated (is_addressed owner peer) limit rows,
)
