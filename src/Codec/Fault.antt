-- ===== src/Codec/Fault.antt =====
-- internal/codec/constants.go and errors.go: the constants of the format and its errors.
use adbc_driver_quack.Base.{ℕ, ◌-◌, ◌^◌}

-- `FieldEnd`
abbrev pub field_end : ℕ
field_end = 0xFFFF

-- `OptionalIndexInvalid`, the maximum uint64
abbrev pub optional_index_invalid : ℕ
optional_index_invalid = 0xFFFF_FFFF_FFFF_FFFF

-- `math.MaxInt` on a 64-bit machine
abbrev pub max_int : ℕ
max_int = 2 ^ 63 - 1

-- What `Op` and `Msg` of an `Error` say, one constructor for each place that makes one, with the
-- numbers that its message prints. The last two are no `Error` of Go: `panicked` stands for a Go
-- panic, after which nothing runs, and `out_of_fuel` for a bounded recursion of the model.
pub data Cause : Type 0 where
  trailing_bytes : ℕ → Cause
  end_of_input : ℕ → ℕ → Cause
  not_end_of_object : ℕ → Cause
  unexpected_field : ℕ → ℕ → Cause
  negative_length : ℕ → Cause
  invalid_bool : ℕ → Cause
  too_long : Cause
  exceeds_max_int : ℕ → Cause
  panicked : Cause
  out_of_fuel : Cause

-- `Error`
pub record Error : Type 0 where
  pub cause : Cause
  pub offset : ℕ
