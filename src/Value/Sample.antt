-- ===== src/Value/Sample.antt =====
-- A host for the tests: texts are never numbers, floats compare by their bits.
use Prim.Native.Nat.{compare}
use rypipe.Prelude.{none, some, true, false, [], pos}
use rypipe.Value.{Host}

abbrev pub sample : Host
sample = record {
  lexical_i64 = λ s. none;
  lexical_f64 = λ s. none;
  parse_i64 = λ s. none;
  parse_f64 = λ s. none;
  parse_i32 = λ s. none;
  parse_i128 = λ s. none;
  show_i64 = λ i. [];
  show_f64 = λ x. [];
  debug_value = λ v. [];
  partial_cmp = λ x y. some (compare x.bits y.bits);
  of_int = λ i. record { bits = 0 };
  to_int = λ x. pos 0;
  fract = λ x. x;
  powi10 = λ n. record { bits = n };
  f64_add = λ x y. x;
  f64_sub = λ x y. x;
  f64_mul = λ x y. x;
  f64_div = λ x y. x;
  is_zero = λ x. false;
  trim = λ s. s;
  trim_start = λ s. s;
  trim_end = λ s. s;
  to_lowercase = λ s. s;
  to_uppercase = λ s. s;
  replace = λ s old new. s;
  is_match = λ pattern s. false;
  parse_date32 = λ s. none;
  parse_timestamp = λ s u f. none;
  format_date32 = λ d. [];
  format_timestamp = λ t u. [];
  is_utf8 = λ s. true;
  from_utf8_lossy = λ s. s;
}
