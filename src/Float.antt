-- ===== src/Float.antt =====
-- The C type `double`. There are no floating-point numbers here: the type, its arithmetic and the
-- conversions of the C library that the program uses are an interface, which every module that
-- meets a `double` takes as an instance argument.
use movid.Base.{Text, ℤ, Bool}

pub record Floats : Type 1 where
  pub Double : Type 0
  pub zero_double : Double
  pub one_double : Double
  pub add : Double → Double → Double
  pub sub : Double → Double → Double
  pub mul : Double → Double → Double
  pub div : Double → Double → Double
  pub sqrt : Double → Double
  pub pow : Double → Double → Double
  pub fabs : Double → Double
  pub lt : Double → Double → Bool
  -- `value == 0`
  pub is_zero : Double → Bool
  -- `(double)value` of an integer, and `(int)value`
  pub of_int : ℤ → Double
  pub to_int : Double → ℤ
  -- `(float)value`, as a double again
  pub to_float : Double → Double
  -- `atof`, the format `%f`, and `<<` on an output stream
  pub atof : Text → Double
  pub print_fixed : Double → Text
  pub print_stream : Double → Text
