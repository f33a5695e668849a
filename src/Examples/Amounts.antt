-- ===== src/Examples/Amounts.antt =====
-- Amounts of the examples.
use investments.Base.{ℕ}
use investments.Base.Int.{ℤ}
use investments.Base.Decimal.{dec, negate}
use investments.Base.Decimal.Units.{units}

-- Whole euros, and a loss of as many.
abbrev pub eur : (n : ℕ) → ℤ
eur n = dec n 0

abbrev pub loss : (n : ℕ) → ℤ
loss n = negate (dec {D = ℤ} n 0)
