-- ===== src/Base/Decimal.antt =====
-- `str(n)` of a natural number.
use prima_next.Base.Tests.{◌==◌, nat_eq, if◌then◌else◌}
use prima_next.Base.Text.{Text}
use Prim.Native.Nat.{ℕ, zero, suc, ◌+◌}
use mathlib.Core.List.{[], ◌∷◌}

-- Decimal digits of a number, the last first.
abbrev increment : Text → Text
increment [] = b'1' ∷ []
increment (c ∷ cs) = let rest = increment cs in if c == b'9' then b'0' ∷ rest else (c + 1) ∷ cs

abbrev digits : ℕ → Text
digits zero = b'0' ∷ []
digits (suc n) = increment (digits n)

abbrev reverse_onto : Text → Text → Text
reverse_onto [] t = t
reverse_onto (c ∷ cs) t = reverse_onto cs (c ∷ t)

abbrev pub decimal : ℕ → Text
decimal n = reverse_onto (digits n) []
