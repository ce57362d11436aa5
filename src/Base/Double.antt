-- ===== src/Base/Double.antt =====
-- The floating-point numbers of the C++ implementation, which the control plane only compares with
-- constants: a type with the tests that the source makes. `whole n` is the literal `n.0`.
use mathlib.Core.Bool.{Bool, true}
use hibiki_dsp.Base.Int.{ℤ, lt_int}

pub record Double : Type 1 where
  pub Value : Type 0
  pub is_finite : Value → Bool
  pub lt : Value → Value → Bool
  pub whole : ℤ → Value

-- The integers, all finite: a value of the interface for the examples.
abbrev pub integers : Double
integers = record { Value = ℤ; is_finite = λ x. true; lt = lt_int; whole = λ n. n }
