-- ===== src/Agent/SocialMemory/Search.antt =====
-- The search of `_append_with_budget` for the longest prefix that fits.
use Prim.Native.Nat.{◌/◌}
use dogos_memory.Base.{
  Bool, Bool-cases, ap, arith, false, if◌then◌else◌, inl, inr, ltb, suc, true, zero, ℕ, ◌+◌, ◌-◌,
  ◌∙◌, ◌≡◌, ◌≤◌, ◌⊎◌,
}

module _ (holds : ℕ → Bool) where
  -- `while low < high`, with fuel for the rounds
  unfoldable pub longest : ℕ → ℕ → ℕ → ℕ
  longest zero low high = low
  longest (suc f) low high =
      let middle = (low + high + 1) / 2 in
      let right = longest f middle high in
      let left = longest f low (middle - 1) in
      if ltb low high then (if holds middle then right else left) else low

  -- what the search returns, for a range whose end is the last number or is followed by one that fails
  pub record IsLongest (low top r : ℕ) : Type 0 where
    pub above : low ≤ r
    pub below : r ≤ top
    pub sound : holds r ≡ true
    pub edge : (r ≡ top) ⊎ (holds (suc r) ≡ false)

  edge_at :
      (low high top : ℕ)
      → low ≤ high
      → high ≤ low + 0
      → (high ≡ top) ⊎ (holds (suc high) ≡ false)
      → (low ≡ top) ⊎ (holds (suc low) ≡ false)
  edge_at low high top l n e = let same : low ≡ high = omega arith in rw same e

  raised : {low middle top r : ℕ} → low ≤ middle → IsLongest middle top r → IsLongest low top r
  raised le h = record { above = omega arith; below = h.below; sound = h.sound; edge = h.edge }

  failing : {n m : ℕ} → suc n ≡ m → holds m ≡ false → holds (suc n) ≡ false
  failing e h = ap holds e ∙ h

  -- Fuel for every element of the range is enough.
  pub longest-IsLongest :
      (f low high top : ℕ)
      → high ≤ low + f
      → low ≤ high
      → high ≤ top
      → holds low ≡ true
      → (high ≡ top) ⊎ (holds (suc high) ≡ false)
      → IsLongest low top (longest f low high)
  unfolding longest
  longest-IsLongest zero low high top n l t h e = record {
    above = omega arith;
    below = omega arith;
    sound = h;
    edge = edge_at low high top l n e;
  }
  longest-IsLongest (suc f) low high top n l t h e = elim (Bool-cases (ltb low high)) [
    | inr stop ↦ rw stop (record {
      above = omega arith;
      below = omega arith;
      sound = h;
      edge = edge_at low high top l (ground arith) e;
    })
    | inl go ↦ elim (Bool-cases (holds ((low + high + 1) / 2))) [
      | inl good ↦
          rw (go, good)
            (raised (ground arith) (
              longest-IsLongest f ((low + high + 1) / 2) high top (ground arith) (ground arith) t
                good e))
      | inr bad ↦
          rw (go, bad)
            (longest-IsLongest f low ((low + high + 1) / 2 - 1) top (ground arith) (ground arith)
              (ground arith) h (inr (failing (ground arith) bad)))
    ]
  ]
