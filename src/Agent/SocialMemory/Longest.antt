-- ===== src/Agent/SocialMemory/Longest.antt =====
-- A cut item shows as much of its content as the budget allows.
use mathlib.Core.List.{map-append}
use mathlib.Core.Path.{subst}
use dogos_memory.Agent.SocialMemory.Budget.{
  Category, append_cut, append_with_budget, bare, cut, cut_fits, cut_longest, facts_of, thoughts_of,
  with_item, within_budget,
}
use dogos_memory.Agent.SocialMemory.Search.{longest, longest-IsLongest}
use dogos_memory.Agent.SocialMemory.Size.{
  Item, Response, chars_size, item_size, items_size, joined, response_size,
}
use dogos_memory.Base.{
  Bool-cases, List, Text, [], arith, codes, false, inl, inr, length, map, refl, suc, take, true,
  zero, ℕ, ◌++◌, ◌+◌, ◌<◌, ◌∷◌, ◌≡◌, ◌≤◌, ◌⊎◌,
}

chars_size-append : (s t : Text) → chars_size (s ++ t) ≡ chars_size s + chars_size t
unfolding chars_size
chars_size-append [] t = omega arith
chars_size-append (c ∷ s) t = omega (arith, chars_size-append s t)

chars_size-take_le : (n m : ℕ) (t : Text) → n ≤ m → chars_size (take n t) ≤ chars_size (take m t)
unfolding chars_size
chars_size-take_le zero m t h = omega arith
chars_size-take_le (suc n) zero t h = absurd (omega arith)
chars_size-take_le (suc n) (suc m) [] h = omega arith
chars_size-take_le (suc n) (suc m) (c ∷ t) h = omega (arith, chars_size-take_le n m t (omega arith))

item_size-cut_le : (n m : ℕ) (i : Item) → n ≤ m → item_size (cut n i) ≤ item_size (cut m i)
unfolding item_size
item_size-cut_le n m i h = omega (
  arith,
  chars_size-append (take n i.content) (codes "…[truncated]"),
  chars_size-append (take m i.content) (codes "…[truncated]"),
  chars_size-take_le n m i.content h,
)

joined_le : (ns : List ℕ) (a b : ℕ) → a ≤ b → joined (ns ++ a ∷ []) ≤ joined (ns ++ b ∷ [])
unfolding joined
joined_le [] a b h = omega arith
joined_le (n ∷ []) a b h = omega arith
joined_le (n ∷ m ∷ ns) a b h = omega (arith, joined_le (m ∷ ns) a b h)

items_size_le :
    (xs : List Item) (i j : Item)
    → item_size i ≤ item_size j
    → items_size (xs ++ i ∷ []) ≤ items_size (xs ++ j ∷ [])
items_size_le xs i j h =
    rw (map-append item_size xs (i ∷ []), map-append item_size xs (j ∷ []))
      (omega (arith, joined_le (map item_size xs) (item_size i) (item_size j) h))

pub response_size-with_item_le :
    (category : Category) (i j : Item) (r : Response)
    → item_size i ≤ item_size j
    → response_size (with_item category i r) ≤ response_size (with_item category j r)
unfolding response_size
response_size-with_item_le facts_of i j r h = omega (arith, items_size_le r.facts i j h)
response_size-with_item_le thoughts_of i j r h = omega (arith, items_size_le r.thoughts i j h)

-- a shorter cut fits where a longer one does
cut_fits_le :
    (category : Category) (r : Response) (i : Item) (n m : ℕ)
    → n ≤ m
    → cut_fits category r i m ≡ true
    → cut_fits category r i n ≡ true
unfolding cut_fits within_budget
cut_fits_le category r i n m h k =
    ground
      (arith, response_size-with_item_le category (cut n i) (cut m i) r (item_size-cut_le n m i h))

abbrev pub marked : Item → Item
marked i = record i { content_truncated = true }

-- The response with a candidate that is cut: it fits, and no longer cut of it does.
pub record IsCut (category : Category) (candidate : Item) (r r' : Response) : Type 0 where
  pub size : ℕ
  pub short : size ≤ length candidate.content
  pub shown : r' ≡ with_item category (cut size candidate) r
  pub fitting : cut_fits category r candidate size ≡ true
  pub longer :
      (n : ℕ) → size < n → n ≤ length candidate.content → cut_fits category r candidate n ≡ false

no_longer :
    (category : Category) (r : Response) (i : Item) (size n : ℕ)
    → size < n
    → n ≤ length i.content
    → (size ≡ length i.content) ⊎ (cut_fits category r i (suc size) ≡ false)
    → cut_fits category r i n ≡ false
no_longer category r i size n above below (inl e) = absurd (omega (arith, e))
no_longer category r i size n above below (inr e) = elim (Bool-cases (cut_fits category r i n)) [
  | inr f ↦ f
  | inl f ↦ cc (e, cut_fits_le category r i (suc size) n (omega arith) f)
]

cut_longest-IsCut :
    (category : Category) (candidate : Item) (r : Response)
    → cut_fits category r candidate 0 ≡ true
    → IsCut category candidate r (cut_longest category candidate r)
unfolding cut_longest
cut_longest-IsCut category candidate r h =
    let top = length candidate.content in
    let holds = cut_fits category r candidate in
    let found =
      longest-IsLongest holds top 0 top top (omega arith) (omega arith) (omega arith) h
        (inl refl) in
    record {
      size = longest holds top 0 top;
      short = found.below;
      shown = refl;
      fitting = found.sound;
      longer = λ n above below.
          no_longer category r candidate (longest holds top 0 top) n above below found.edge;
    }

-- What follows an item that does not fit whole: nothing, where not even its bare form without content
-- fits; else the item, or its bare form if the item without content does not fit, cut to the longest
-- content that fits.
abbrev pub IsLastItem : Category → Item → Response → Response → Type 0
IsLastItem category i r r' =
    IsCut category (marked i) r r'
    ⊎ ((cut_fits category r (marked i) 0 ≡ false)
        × (IsCut category (bare (marked i)) r r'
            ⊎ ((cut_fits category r (bare (marked i)) 0 ≡ false) × (r' ≡ r))))

append_cut-IsLastItem :
    (category : Category) (i : Item) (r : Response)
    → IsLastItem category i r (append_cut category i r)
unfolding append_cut
append_cut-IsLastItem category i r = elim (Bool-cases (cut_fits category r (marked i) 0)) [
  | inl a ↦ rw a (inl (cut_longest-IsCut category (marked i) r a))
  | inr a ↦ elim (Bool-cases (cut_fits category r (bare (marked i)) 0)) [
    | inl b ↦ rw (a, b) (inr (refl, inl (cut_longest-IsCut category (bare (marked i)) r b)))
    | inr b ↦ rw (a, b) (inr (refl, inr (refl, refl)))
  ]
]

-- An item after which no other is tried does not fit whole; it is then shown with the longest content
-- that fits, without its evidence only if it fits with no content otherwise, or not at all if it fits in
-- neither form. Either way the response says that it is truncated.
pub append_with_budget_longest :
    (category : Category) (i : Item) (r : Response) {r' : Response}
    → append_with_budget category i r ≡ (r', false)
    → (within_budget (with_item category i r) ≡ false)
      × IsLastItem category i (record r { truncated = true }) r'
unfolding append_with_budget
append_with_budget_longest category i r {r'} h =
    elim (Bool-cases (within_budget (with_item category i r))) [
      | inl a ↦ ground arith
      | inr a ↦
          let same : append_cut category i (record r { truncated = true }) ≡ r' = ground arith in
          (
            a,
            subst (IsLastItem category i (record r { truncated = true })) same
                (append_cut-IsLastItem category i (record r { truncated = true })),
          )
    ]
