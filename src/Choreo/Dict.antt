-- ===== src/Choreo/Dict.antt =====
-- A `dict` and a `set` of apps/demo_choreo/core.py. A dict is its items in the order in which their keys
-- were first set.
use mathlib.Core.List.{Memᴰ}
use mathlib.Core.Path.{subst}
use dogos_memory.Base.{
  Bool, Bool-cases, List, Option, [], any, ap, arith, false, if◌then◌else◌, inl, inr, map, none,
  refl, some, true, ◌++◌, ◌∙◌, ◌∷◌, ◌≡◌,
}

module _ {K : Type 0} (eq : K → K → Bool) where
  -- Each key is none of those that were seen, nor one in front of it.
  abbrev pub IsNew : List K → List K → Type 0
  IsNew seen [] = Unit
  IsNew seen (k ∷ ks) = (any (eq k) seen ≡ false) × IsNew (k ∷ seen) ks

  any-Memᴰ : (p : K → Bool) (k : K) (ks : List K) → Memᴰ k ks → any p ks ≡ false → p k ≡ false
  any-Memᴰ p k [] m h = elim m [ ]
  any-Memᴰ p k (l ∷ ks) (Memᴰ.head e) h = let f : p l ≡ false = ground arith in ap p e ∙ f
  any-Memᴰ p k (l ∷ ks) (Memᴰ.tail m) h = any-Memᴰ p k ks m (ground arith)

-- the keys that were seen, after some more
unfoldable pub see : {K : Type 0} → List K → List K → List K
see seen [] = seen
see seen (k ∷ ks) = see (k ∷ seen) ks

pub append-IsNew :
    {K : Type 0} (eq : K → K → Bool) (seen ks ls : List K)
    → IsNew eq seen ks
    → IsNew eq (see seen ks) ls
    → IsNew eq seen (ks ++ ls)
unfolding see
append-IsNew eq seen [] ls h n = n
append-IsNew eq seen (k ∷ ks) ls h n = (h.0, append-IsNew eq (k ∷ seen) ks ls h.1 n)

pub see-append : {K : Type 0} (seen ks ls : List K) → see (see seen ks) ls ≡ see seen (ks ++ ls)
unfolding see
see-append seen [] ls = refl
see-append seen (k ∷ ks) ls = see-append (k ∷ seen) ks ls

module _ {K V : Type 0} (eq : K → K → Bool) where
  -- `d.get(key)`
  unfoldable pub find : K → List (K × V) → Option V
  find k [] = none
  find k (p ∷ d) = let rest = find k d in if eq p.0 k then some p.1 else rest

  -- `d[key] = value`
  unfoldable pub put : K → V → List (K × V) → List (K × V)
  put k v [] = (k, v) ∷ []
  put k v (p ∷ d) = let rest = put k v d in if eq p.0 k then (p.0, v) ∷ d else p ∷ rest

  unfoldable pub put_all : List (K × V) → List (K × V) → List (K × V)
  put_all d [] = d
  put_all d (p ∷ ps) = put_all (put p.0 p.1 d) ps

  module _ (same : (k : K) → eq k k ≡ true)
      (alike : (k l m : K) → eq k l ≡ true → eq k m ≡ eq l m) where
    find-put : (k : K) (v : V) (d : List (K × V)) → find k (put k v d) ≡ some v
    unfolding find put
    find-put k v [] = rw (same k) refl
    find-put k v (p ∷ d) = elim (Bool-cases (eq p.0 k)) [
      | inl e ↦ rw e (rw e refl)
      | inr e ↦ rw e (rw e (find-put k v d))
    ]

    find-put_other :
        (k l : K) (v : V) (d : List (K × V)) → eq l k ≡ false → find k (put l v d) ≡ find k d
    unfolding find put
    find-put_other k l v [] n = rw n refl
    find-put_other k l v (p ∷ d) n = elim (Bool-cases (eq p.0 l)) [
      | inl e ↦ let f : eq p.0 k ≡ false = alike p.0 l k e ∙ n in rw e (rw f refl)
      | inr e ↦ rw e (rw (find-put_other k l v d n) refl)
    ]

    find-put_all_old :
        (seen : List K) (k : K) (ps d : List (K × V))
        → Memᴰ k seen
        → IsNew eq seen (map (λ p. p.0) ps)
        → find k (put_all d ps) ≡ find k d
    unfolding put_all
    find-put_all_old seen k [] d m n = refl
    find-put_all_old seen k (p ∷ ps) d m n =
        find-put_all_old (p.0 ∷ seen) k ps (put p.0 p.1 d) (Memᴰ.tail m) n.1
        ∙ find-put_other k p.0 p.1 d (any-Memᴰ eq (eq p.0) k seen m n.0)

    -- the value of a key that is set once
    pub find-put_all :
        (seen : List K) (k : K) (v : V) (ps d : List (K × V))
        → Memᴰ (k, v) ps
        → IsNew eq seen (map (λ p. p.0) ps)
        → find k (put_all d ps) ≡ some v
    unfolding put_all
    find-put_all seen k v [] d m n = elim m [ ]
    find-put_all seen k v (p ∷ ps) d (Memᴰ.head e) n =
        find-put_all_old (p.0 ∷ seen) k ps (put p.0 p.1 d) (Memᴰ.head (ap (λ q. q.0) e)) n.1
        ∙ subst (λ q. find k (put q.0 q.1 d) ≡ some v) e (find-put k v d)
    find-put_all seen k v (p ∷ ps) d (Memᴰ.tail m) n =
        find-put_all (p.0 ∷ seen) k v ps (put p.0 p.1 d) m n.1
