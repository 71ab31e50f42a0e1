-- ===== src/Spaces.antt =====
-- `str.strip` and `str.split` of Python, as packages/native_agent/dogos_mcp/relay.py and
-- apps/demo_choreo/core.py use them.
use mathlib.Core.List.{reverse}
use dogos_memory.Base.{Bool, Text, [], false, if◌then◌else◌, leb, ℕ, ◌&&◌, ◌==◌, ◌||◌, ◌∷◌}

abbrev between : ℕ → ℕ → ℕ → Bool
between low high c = leb low c && leb c high

-- what `str.strip()` removes
unfoldable pub is_space : ℕ → Bool
is_space c =
    between 9 13 c
    || between 28 32 c
    || c == 133
    || c == 160
    || c == 5760
    || between 8192 8202 c
    || between 8232 8233 c
    || c == 8239
    || c == 8287
    || c == 12288

unfoldable pub drop_spaces : Text → Text
drop_spaces [] = []
drop_spaces (c ∷ t) = let rest = drop_spaces t in if is_space c then rest else c ∷ t

abbrev pub strip : Text → Text
strip t = reverse (drop_spaces (reverse (drop_spaces t)))

-- a single space for every run of spaces, and one in front if it is due, but none at the end
unfoldable pub squeeze : Bool → Text → Text
squeeze due [] = []
squeeze due (c ∷ t) =
    let rest = squeeze (is_space c) t in
    if is_space c then rest else if due then 32 ∷ c ∷ rest else c ∷ rest

-- `" ".join(value.split())`
abbrev pub join_words : Text → Text
join_words t = squeeze false (drop_spaces t)
