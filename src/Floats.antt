-- ===== src/Floats.antt =====
-- The machine's float64 arithmetic and the functions of Go's `math` package, which the program
-- only calls. A type of floats is a parameter of the model, with its operations as an instance.
use schedulator.Prelude.{ℕ, ◌≡◌, Bool, true, false, ℤ}

pub record Float64 (F : Type 0) : Type 0 where
  -- `float64(n)` and the literal n/d.
  pub of_int : ℤ → F
  pub literal : (n d : ℕ) → F
  pub add : F → F → F
  pub sub : F → F → F
  pub mul : F → F → F
  pub div : F → F → F
  -- `a < b` and `a == b`; both are false at a NaN.
  pub lt : F → F → Bool
  pub eq : F → F → Bool
  -- `math.Max`, `math.Min`, `math.Abs`, `int(math.Ceil(f))` and `int(f)`.
  pub max_f : F → F → F
  pub min_f : F → F → F
  pub abs_f : F → F
  pub ceil_int : F → ℤ
  pub to_int : F → ℤ

-- What IEEE 754 says of `<`, at every value, NaN included: a strict partial order.
pub record IsOrdered {F : Type 0} (fl : Float64 F) : Type 0 where
  pub lt_irrefl : (a : F) → fl.lt a a ≡ false
  pub lt_trans : (a b c : F) → fl.lt a b ≡ true → fl.lt b c ≡ true → fl.lt a c ≡ true
