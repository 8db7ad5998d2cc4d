-- ===== src/QuackType/Ids.antt =====
-- internal/quacktype/logical_type_id.go: the ids of `LogicalTypeID`.
use adbc_driver_quack.Base.{ℕ}

abbrev pub invalid_id : ℕ
invalid_id = 0

abbrev pub sql_null_id : ℕ
sql_null_id = 1

abbrev pub unknown_id : ℕ
unknown_id = 2

abbrev pub any_id : ℕ
any_id = 3

abbrev pub unbound_id : ℕ
unbound_id = 4

abbrev pub template_id : ℕ
template_id = 5

abbrev pub type_id : ℕ
type_id = 6

abbrev pub boolean_id : ℕ
boolean_id = 10

abbrev pub tinyint_id : ℕ
tinyint_id = 11

abbrev pub smallint_id : ℕ
smallint_id = 12

abbrev pub integer_id : ℕ
integer_id = 13

abbrev pub bigint_id : ℕ
bigint_id = 14

abbrev pub date_id : ℕ
date_id = 15

abbrev pub time_id : ℕ
time_id = 16

abbrev pub timestamp_sec_id : ℕ
timestamp_sec_id = 17

abbrev pub timestamp_ms_id : ℕ
timestamp_ms_id = 18

abbrev pub timestamp_id : ℕ
timestamp_id = 19

abbrev pub timestamp_ns_id : ℕ
timestamp_ns_id = 20

abbrev pub decimal_id : ℕ
decimal_id = 21

abbrev pub float_id : ℕ
float_id = 22

abbrev pub double_id : ℕ
double_id = 23

abbrev pub char_id : ℕ
char_id = 24

abbrev pub varchar_id : ℕ
varchar_id = 25

abbrev pub blob_id : ℕ
blob_id = 26

abbrev pub interval_id : ℕ
interval_id = 27

abbrev pub utinyint_id : ℕ
utinyint_id = 28

abbrev pub usmallint_id : ℕ
usmallint_id = 29

abbrev pub uinteger_id : ℕ
uinteger_id = 30

abbrev pub ubigint_id : ℕ
ubigint_id = 31

abbrev pub timestamp_tz_id : ℕ
timestamp_tz_id = 32

abbrev pub time_tz_id : ℕ
time_tz_id = 34

abbrev pub time_ns_id : ℕ
time_ns_id = 35

abbrev pub bit_id : ℕ
bit_id = 36

abbrev pub string_literal_id : ℕ
string_literal_id = 37

abbrev pub integer_literal_id : ℕ
integer_literal_id = 38

abbrev pub bignum_id : ℕ
bignum_id = 39

abbrev pub uhugeint_id : ℕ
uhugeint_id = 49

abbrev pub hugeint_id : ℕ
hugeint_id = 50

abbrev pub pointer_id : ℕ
pointer_id = 51

abbrev pub validity_id : ℕ
validity_id = 53

abbrev pub uuid_id : ℕ
uuid_id = 54

abbrev pub geometry_id : ℕ
geometry_id = 60

abbrev pub struct_id : ℕ
struct_id = 100

abbrev pub list_id : ℕ
list_id = 101

abbrev pub map_id : ℕ
map_id = 102

abbrev pub table_id : ℕ
table_id = 103

abbrev pub enum_id : ℕ
enum_id = 104

abbrev pub aggregate_state_id : ℕ
aggregate_state_id = 105

abbrev pub lambda_id : ℕ
lambda_id = 106

abbrev pub union_id : ℕ
union_id = 107

abbrev pub array_id : ℕ
array_id = 108

abbrev pub variant_id : ℕ
variant_id = 109
