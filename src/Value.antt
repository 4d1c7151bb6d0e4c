-- ===== src/Value.antt =====
-- crates/rypipe-core/src/value.rs: a decoded value; and what the engine asks of its host:
-- floats, Unicode case and space, regular expressions, dates.
pub mod Sample
use Prim.Native.Nat.{Ordering}
use rypipe.Prelude.{ℕ, Option, none, some, Bool, true, false, Str, bytes, str_eq, ℤ, if◌then◌else◌}

-- An `f64` by its bit pattern. Its operations are those of the host.
pub record F64 : Type 0 where
  pub bits : ℕ

-- `Cow` is not kept: a borrowed and an owned text are the same bytes.
pub data Value : Type 0 where
  str : Str → Value
  int64 : ℤ → Value
  float64 : F64 → Value
  bool : Bool → Value
  date32 : ℤ → Value
  timestamp : ℤ → Value
  null : Value

unfoldable pub as_str : Value → Option Str
as_str (str s) = some s
as_str _ = none

-- arrow's `TimeUnit`
pub data TimeUnit : Type 0 where
  second millisecond microsecond nanosecond : TimeUnit

-- `s.parse::<bool>().ok()`, and `b.to_string()`.
unfoldable pub parse_bool : Str → Option Bool
unfolding str_eq
parse_bool s =
    if str_eq s (bytes "true")
    then some true
    else if str_eq s (bytes "false")
    then some false
    else none

unfoldable pub show_bool : Bool → Str
show_bool true = bytes "true"
show_bool false = bytes "false"

-- The operations of crates that the engine calls (lexical, chrono, regex), of the hardware's
-- floats, and of the standard library's Unicode tables and number formats.
pub record Host : Type 0 where
  pub lexical_i64 : Str → Option ℤ
  pub lexical_f64 : Str → Option F64
  pub parse_i64 : Str → Option ℤ
  pub parse_f64 : Str → Option F64
  pub parse_i32 : Str → Option ℤ
  pub parse_i128 : Str → Option ℤ
  pub show_i64 : ℤ → Str
  pub show_f64 : F64 → Str
  pub debug_value : Value → Str
  pub partial_cmp : F64 → F64 → Option Ordering
  pub of_int : ℤ → F64
  pub to_int : F64 → ℤ
  pub fract : F64 → F64
  pub powi10 : ℕ → F64
  pub f64_add : F64 → F64 → F64
  pub f64_sub : F64 → F64 → F64
  pub f64_mul : F64 → F64 → F64
  pub f64_div : F64 → F64 → F64
  pub is_zero : F64 → Bool
  pub trim : Str → Str
  pub trim_start : Str → Str
  pub trim_end : Str → Str
  pub to_lowercase : Str → Str
  pub to_uppercase : Str → Str
  pub replace : Str → Str → Str → Str
  pub is_match : Str → Str → Bool
  pub parse_date32 : Str → Option ℤ
  pub parse_timestamp : Str → TimeUnit → Option Str → Option ℤ
  pub format_date32 : ℤ → Str
  pub format_timestamp : ℤ → TimeUnit → Str
  pub is_utf8 : Str → Bool
  pub from_utf8_lossy : Str → Str
