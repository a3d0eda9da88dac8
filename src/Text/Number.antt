-- ===== src/Text/Number.antt =====
-- `str(n)` of a number, and `sep.join(parts)`.
use mirror_maestro.Common.{ℕ, zero, suc, ◌+◌, ◌/◌, ◌%◌, List, [], ◌∷◌, ◌++◌, ltb, if◌then◌else◌}
use mirror_maestro.Text.Equality.{Text}

-- Fuel `n + 1` is enough for `n`: each round divides by ten.
unfoldable pub digits_of : ℕ → ℕ → Text → Text
digits_of zero n rest = rest
digits_of (suc fuel) n rest =
    let more = digits_of fuel (n / 10) ((48 + n % 10) ∷ rest) in
    if ltb n 10 then (48 + n) ∷ rest else more

unfoldable pub decimal : ℕ → Text
decimal n = digits_of (n + 1) n []

unfoldable pub join : Text → List Text → Text
join sep [] = []
join sep (s ∷ []) = s
join sep (s ∷ (t ∷ parts)) = s ++ (sep ++ join sep (t ∷ parts))
