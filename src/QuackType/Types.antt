-- ===== src/QuackType/Types.antt =====
-- internal/quacktype/logical_type.go: logical types. A Go `int` is its 64-bit pattern, a string
-- its bytes; a `LogicalTypeID` and an `ExtraTypeInfoType` are such patterns.
use adbc_driver_quack.Base.{ℕ, Bool, true, false, Option, List, [], ◌∷◌}

mutual
  -- `LogicalType`
  pub data LogicalType : Type 0 where
    logical_type : ℕ → ExtraTypeInfo → LogicalType

  -- `ExtraTypeInfo`, the nil interface first; the last string of each is its alias. A cast score
  -- is a big.Int that is nil or not negative.
  pub data ExtraTypeInfo : Type 0 where
    nil_info : ExtraTypeInfo
    generic : ℕ → List ℕ → ExtraTypeInfo
    decimal : ℕ → ℕ → List ℕ → ExtraTypeInfo
    string_info : List ℕ → List ℕ → ExtraTypeInfo
    list_info : LogicalType → List ℕ → ExtraTypeInfo
    struct_info : ChildTypes → List ℕ → ExtraTypeInfo
    enum_info : List (List ℕ) → List ℕ → ExtraTypeInfo
    aggregate_state : List ℕ → LogicalType → LogicalTypes → List ℕ → ExtraTypeInfo
    array : LogicalType → ℕ → List ℕ → ExtraTypeInfo
    any : LogicalType → Option ℕ → List ℕ → ExtraTypeInfo
    template : List ℕ → List ℕ → ExtraTypeInfo
    integer_literal : List ℕ → ExtraTypeInfo
    geo : List ℕ → List ℕ → ExtraTypeInfo
    unbound : List ℕ → List ℕ → List ℕ → List ℕ → ExtraTypeInfo

  -- `[]ChildType`
  pub data ChildTypes : Type 0 where
    no_children : ChildTypes
    child : List ℕ → LogicalType → ChildTypes → ChildTypes

  -- `[]LogicalType`
  pub data LogicalTypes : Type 0 where
    no_types : LogicalTypes
    type_then : LogicalType → LogicalTypes → LogicalTypes

-- The zero value of `LogicalType`.
abbrev pub zero_type : LogicalType
zero_type = logical_type 0 nil_info

abbrev pub is_nil : ExtraTypeInfo → Bool
is_nil nil_info = true
is_nil _ = false

-- `Kind()`; on nil it panics, and nothing calls it there.
abbrev pub kind : ExtraTypeInfo → ℕ
kind nil_info = 0
kind (generic k a) = k
kind (decimal w s a) = 2
kind (string_info c a) = 3
kind (list_info t a) = 4
kind (struct_info ts a) = 5
kind (enum_info vs a) = 6
kind (unbound n c s a) = 7
kind (aggregate_state f t ts a) = 8
kind (array t n a) = 9
kind (any t s a) = 10
kind (integer_literal a) = 11
kind (template n a) = 12
kind (geo c a) = 13

-- `GetAlias()`
abbrev pub get_alias : ExtraTypeInfo → List ℕ
get_alias nil_info = []
get_alias (generic k a) = a
get_alias (decimal w s a) = a
get_alias (string_info c a) = a
get_alias (list_info t a) = a
get_alias (struct_info ts a) = a
get_alias (enum_info vs a) = a
get_alias (unbound n c s a) = a
get_alias (aggregate_state f t ts a) = a
get_alias (array t n a) = a
get_alias (any t s a) = a
get_alias (integer_literal a) = a
get_alias (template n a) = a
get_alias (geo c a) = a

-- The slices as lists.
abbrev pub to_list : LogicalTypes → List LogicalType
to_list no_types = []
to_list (type_then t ts) = t ∷ to_list ts

abbrev pub of_list : List LogicalType → LogicalTypes
of_list [] = no_types
of_list (t ∷ ts) = type_then t (of_list ts)

abbrev pub children_to_list : ChildTypes → List (List ℕ × LogicalType)
children_to_list no_children = []
children_to_list (child n t cs) = (n, t) ∷ children_to_list cs

abbrev pub children_of_list : List (List ℕ × LogicalType) → ChildTypes
children_of_list [] = no_children
children_of_list ((n, t) ∷ cs) = child n t (children_of_list cs)
