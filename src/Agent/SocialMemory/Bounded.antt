-- ===== src/Agent/SocialMemory/Bounded.antt =====
-- Whatever is recalled, the response stays within the budget.
use Prim.Native.Nat.{◌/◌}
use dogos_memory.Agent.SocialMemory.Budget.{
  Category, append_with_budget, cut_fits, facts_of, max_chars, thoughts_of, within_budget,
}
use dogos_memory.Agent.SocialMemory.Longest.{IsCut, append_with_budget_longest}
use dogos_memory.Agent.SocialMemory.Recall.{
  Adapted, AdapterError, add_items, answered, empty_response, filled, from_recall, identifier,
  is_printable, memory_item, output_budget_error, recall_social_memory, strict_int,
}
use dogos_memory.Agent.SocialMemory.Size.{
  Item, Response, char_size, chars_size, digit_count, joined, response_size,
}
use dogos_memory.Base.{
  Bool-cases, List, Option-cases, Result-cases, Text, [], ap, arith, err, false, inl, inr, leb,
  length, ok, refl, suc, text_eq, true, zero, ℕ, ◌*◌, ◌>>=◌, ◌∙◌, ◌∷◌, ◌≡◌, ◌≢◌, ◌≤◌,
}
use dogos_memory.Memory.Database.{Database, Store}
use dogos_memory.Memory.Models.{RecallResult, StoredMemory}
use dogos_memory.Memory.Store.{recall}
use dogos_memory.Value.{Value, int_between}

within_budget-truncated :
    (r : Response) → within_budget r ≡ true → within_budget (record r { truncated = true }) ≡ true
unfolding within_budget response_size
within_budget-truncated r h = ground arith

IsCut-within :
    {category : Category} {i : Item} {r r' : Response}
    → IsCut category i r r'
    → within_budget r' ≡ true
unfolding cut_fits
IsCut-within c = ap within_budget c.shown ∙ c.fitting

append_with_budget-within :
    (category : Category) (i : Item) (r : Response)
    → within_budget r ≡ true
    → within_budget (append_with_budget category i r).0 ≡ true
append_with_budget-within category i r h = elim (Bool-cases (append_with_budget category i r).1) [
  | inl e ↦ unfold append_with_budget in ground arith
  | inr e ↦
      let t : Response = record r { truncated = true } in
      let same : append_with_budget category i r ≡ ((append_with_budget category i r).0, false) =
        ap (λ b. ((append_with_budget category i r).0, b)) e in
      elim (append_with_budget_longest category i r same).1 [
        | inl c ↦ IsCut-within c
        | inr (_, inl c) ↦ IsCut-within c
        | inr (_, inr (_, p)) ↦ ap within_budget p ∙ within_budget-truncated r h
      ]
]

add_items-within :
    (category : Category) (ms : List StoredMemory) (r : Response)
    → within_budget r ≡ true
    → within_budget (add_items category ms r).0 ≡ true
unfolding add_items
add_items-within category [] r h = h
add_items-within category (m ∷ ms) r h =
    let a = append_with_budget-within category (memory_item m) r h in
    let b = add_items-within category ms (append_with_budget category (memory_item m) r).0 a in
    ground arith

digit_count_le : (f n : ℕ) → digit_count f n ≤ suc f
unfolding digit_count
digit_count_le zero n = omega arith
digit_count_le (suc f) n = ground (arith, digit_count_le f (n / 10))

chars_size-printable_le : (t : Text) → is_printable t ≡ true → chars_size t ≤ 2 * length t
unfolding chars_size char_size is_printable
chars_size-printable_le [] h = omega arith
chars_size-printable_le (c ∷ t) h = ground (arith, chars_size-printable_le t)

empty_response-within :
    (owner peer : Text) (result : RecallResult)
    → chars_size owner ≤ 400
    → chars_size peer ≤ 400
    → within_budget (empty_response owner peer result) ≡ true
unfolding within_budget response_size joined chars_size char_size
empty_response-within owner peer result o p = ground (arith, digit_count_le 20 result.affinity)

filled-within :
    (owner peer : Text) (result : RecallResult)
    → chars_size owner ≤ 400
    → chars_size peer ≤ 400
    → within_budget (filled owner peer result) ≡ true
unfolding filled
filled-within owner peer result o p =
    let a =
      add_items-within facts_of result.facts (empty_response owner peer result)
        (empty_response-within owner peer result o p) in
    let b =
      add_items-within thoughts_of result.thoughts
        (add_items facts_of result.facts (empty_response owner peer result)).0 a in
    ground arith

identifier-inv : (t : Text) {i : Text} → identifier t ≡ ok i → chars_size i ≤ 400
identifier-inv t {i} h = ground (arith, chars_size-printable_le i)

abbrev pub IsBoundedAnswer : Adapted Response → Type 0
IsBoundedAnswer (ok r) = response_size r ≤ max_chars
IsBoundedAnswer (err e) = e ≢ output_budget_error

identifier_err : (t : Text) {e : AdapterError} → identifier t ≡ err e → e ≢ output_budget_error
identifier_err t h q = ground arith

strict_int_err : (v : Value) {e : AdapterError} → strict_int v ≡ err e → e ≢ output_budget_error
strict_int_err v h q = elim (Option-cases (int_between 1 20 v)) [
  | inl f ↦ ground arith
  | inr (n, f) ↦ ground arith
]

from_recall_err :
    (r : Store RecallResult) {e : AdapterError} → from_recall r ≡ err e → e ≢ output_budget_error
from_recall_err (ok r) h q = cc h
from_recall_err (err e) h q = ground arith

answered-IsBoundedAnswer :
    (owner peer : Text) (result : RecallResult)
    → chars_size owner ≤ 400
    → chars_size peer ≤ 400
    → IsBoundedAnswer (answered owner peer result)
answered-IsBoundedAnswer owner peer result o p =
    let h = filled-within owner peer result o p in
    let w : leb (response_size (filled owner peer result)) max_chars ≡ true =
      unfold within_budget in h in
    rw w (ground arith)

recalled-IsBoundedAnswer :
    (owner peer : Text)
    → chars_size owner ≤ 400
    → chars_size peer ≤ 400
    → (r : Store RecallResult)
    → IsBoundedAnswer (from_recall r >>= λ result. answered owner peer result)
recalled-IsBoundedAnswer owner peer o p (ok r) = answered-IsBoundedAnswer owner peer r o p
recalled-IsBoundedAnswer owner peer o p (err e) = from_recall_err (err e) refl

-- Whatever is recalled, the JSON text of the response has at most 16000 characters; the check of this at
-- the end never fails.
pub recall_social_memory-IsBoundedAnswer :
    (owner peer : Text) (limit : Value) (db : Database)
    → IsBoundedAnswer (recall_social_memory owner peer limit db)
unfolding recall_social_memory
recall_social_memory-IsBoundedAnswer owner peer limit db = elim (Result-cases (identifier owner)) [
  | inr (e, p) ↦ rw p (identifier_err owner p)
  | inl (o, p) ↦ elim (Result-cases (identifier peer)) [
    | inr (e, q) ↦ rw (p, q) (identifier_err peer q)
    | inl (i, q) ↦ elim (Result-cases (strict_int limit)) [
      | inr (e, x) ↦ rw (p, q, x) (strict_int_err limit x)
      | inl (n, x) ↦ elim (Bool-cases (text_eq o i)) [
        | inl same ↦ rw (p, q, x, same) (λ e. cc e)
        | inr apart ↦
            rw (p, q, x, apart)
              (recalled-IsBoundedAnswer o i (identifier-inv owner p) (identifier-inv peer q)
                (recall o (record { peer_id = i; limit = n }) db))
      ]
    ]
  ]
]
