-- ===== src/Base/Texts.antt =====
-- Text as its code points. Identifiers are built and split, so they are lists; the order of two
-- texts is the one of SQLite's BINARY collation, since UTF-8 keeps the order of code points.
use Prim.Native.Nat.{ℕ}
use Prim.Native.Char.{code}
use Prim.Native.String.{String}
use mathlib.Core.Path.{◌≡◌, refl, ap}
use mathlib.Core.Logic.{◌↔◌}
use mathlib.Core.Bool.{Bool, true, false, ◌&&◌, ◌||◌}
use mathlib.Core.List.{List, [], ◌∷◌}
use native.Mathlib.Omega.{arith}
use dogos_memory.Base.Tests.{◌==◌, ltb}

abbrev pub Text : Type 0
Text = List ℕ

abbrev pub codes : String → Text
codes String.[] = []
codes (String.◌∷◌ c s) = code c ∷ codes s

unfoldable pub text_eq : Text → Text → Bool
text_eq [] [] = true
text_eq (a ∷ s) (b ∷ t) = a == b && text_eq s t
text_eq _ _ = false

text_eq→eq : (s t : Text) → text_eq s t ≡ true → s ≡ t
unfolding text_eq
text_eq→eq [] [] h = refl
text_eq→eq [] (b ∷ t) h = cc
text_eq→eq (a ∷ s) [] h = cc
text_eq→eq (a ∷ s) (b ∷ t) h = ground (arith, text_eq→eq s t)

pub text_eq_refl : (s : Text) → text_eq s s ≡ true
unfolding text_eq
text_eq_refl [] = refl
text_eq_refl (a ∷ s) = ground (arith, text_eq_refl s)

pub text_eq_iff : (s t : Text) → (text_eq s t ≡ true) ↔ (s ≡ t)
text_eq_iff s t = (text_eq→eq s t, λ e. cc (text_eq_refl s, ap (text_eq s) e))

-- `s < t`
unfoldable pub text_lt : Text → Text → Bool
text_lt [] [] = false
text_lt [] (b ∷ t) = true
text_lt (a ∷ s) [] = false
text_lt (a ∷ s) (b ∷ t) = ltb a b || (a == b && text_lt s t)

pub text_lt_asym : (a b : Text) → text_lt a b ≡ true → text_lt b a ≡ false
unfolding text_lt
text_lt_asym [] [] h = cc
text_lt_asym [] (y ∷ b) h = refl
text_lt_asym (x ∷ a) [] h = cc
text_lt_asym (x ∷ a) (y ∷ b) h = ground (arith, text_lt_asym a b)

-- negated transitivity: `not (b < a)` and `not (c < b)` give `not (c < a)`
pub text_lt_negated :
    (a b c : Text) → text_lt b a ≡ false → text_lt c b ≡ false → text_lt c a ≡ false
unfolding text_lt
text_lt_negated [] b [] h k = refl
text_lt_negated [] [] (z ∷ c) h k = refl
text_lt_negated [] (y ∷ b) (z ∷ c) h k = refl
text_lt_negated (x ∷ a) [] c h k = cc
text_lt_negated (x ∷ a) (y ∷ b) [] h k = cc
text_lt_negated (x ∷ a) (y ∷ b) (z ∷ c) h k = ground (arith, text_lt_negated a b c)
