-- ===== src/Driver/Params.antt =====
-- driver/quack/params.go: bound values as SQL literals, and the markers that they replace; and
-- `quoteIdent` of driver/quack/bulk_ingest.go. Strings are their bytes.
use adbc_driver_quack.Base.{
  ℕ, zero, suc, ◌+◌, ◌-◌, ◌/◌, ◌%◌, ◌^◌, Bool, true, false, ◌&&◌, List, [], ◌∷◌, ◌++◌, length, ◌⊎◌,
  inl, inr, ltb, ◌==◌, if◌then◌else◌,
}

-- `strings.ReplaceAll(s, q, q+q)` for a string `q` of one byte
unfoldable pub double : ℕ → List ℕ → List ℕ
double q [] = []
double q (c ∷ s) = let rest = double q s in if c == q then q ∷ (q ∷ rest) else c ∷ rest

abbrev pub quote : ℕ
quote = 39

abbrev pub double_quote : ℕ
double_quote = 34

-- A string literal: `"'" + strings.ReplaceAll(x, "'", "''") + "'"`
unfoldable pub quote_string : List ℕ → List ℕ
unfolding double
quote_string s = (quote ∷ []) ++ (double quote s ++ (quote ∷ []))

-- `quoteIdent`
unfoldable pub quote_ident : List ℕ → List ℕ
unfolding double
quote_ident name = (double_quote ∷ []) ++ (double double_quote name ++ (double_quote ∷ []))

-- The decimal digits of a number below 10 ^ fuel.
unfoldable pub digits : ℕ → ℕ → List ℕ
digits zero n = []
digits (suc fuel) n =
    let rest = digits fuel (n / 10) in
    if ltb n 10 then (48 + n) ∷ [] else rest ++ ((48 + n % 10) ∷ [])

-- `fmt.Sprint` of an int64 with this pattern, and of a uint64
unfoldable pub sprint_int64 : ℕ → List ℕ
unfolding digits
sprint_int64 n = if ltb n (2 ^ 63) then digits 20 n else 45 ∷ digits 20 (2 ^ 64 - n)

unfoldable pub sprint_uint64 : ℕ → List ℕ
unfolding digits
sprint_uint64 n = digits 20 n

-- A digit of `%X`.
abbrev pub hex_digit : ℕ → ℕ
hex_digit d = if ltb d 10 then 48 + d else 55 + d

-- `fmt.Fprintf(&b, "\\x%02X", c)` for each byte
unfoldable pub hex_bytes : List ℕ → List ℕ
hex_bytes [] = []
hex_bytes (c ∷ s) = 92 ∷ (120 ∷ (hex_digit (c / 16) ∷ (hex_digit (c % 16) ∷ hex_bytes s)))

-- A bound value. A float64 comes with the text that `fmt` gives it, a `sqlKeyword` is its text.
pub data Value : Type 0 where
  null : Value
  bool_value : Bool → Value
  int64_value : ℕ → Value
  uint64_value : ℕ → Value
  float64_value : List ℕ → Value
  string_value : List ℕ → Value
  bytes_value : List ℕ → Value
  sql_keyword : List ℕ → Value

-- `renderLiteral`: NULL, TRUE, FALSE, `…::DOUBLE` and `'…'::BLOB` are spelled in bytes.
unfoldable pub render_literal : Value → List ℕ
unfolding quote_string sprint_int64 sprint_uint64 hex_bytes
render_literal null = 78 ∷ (85 ∷ (76 ∷ (76 ∷ [])))
render_literal (bool_value true) = 84 ∷ (82 ∷ (85 ∷ (69 ∷ [])))
render_literal (bool_value false) = 70 ∷ (65 ∷ (76 ∷ (83 ∷ (69 ∷ []))))
render_literal (int64_value n) = sprint_int64 n
render_literal (uint64_value n) = sprint_uint64 n
render_literal (float64_value text) =
    text ++ (58 ∷ (58 ∷ (68 ∷ (79 ∷ (85 ∷ (66 ∷ (76 ∷ (69 ∷ []))))))))
render_literal (string_value s) = quote_string s
render_literal (bytes_value bs) =
    (quote ∷ []) ++ (hex_bytes bs ++ (quote ∷ (58 ∷ (58 ∷ (66 ∷ (76 ∷ (79 ∷ (66 ∷ []))))))))
render_literal (sql_keyword text) = text

-- Where the scan is: `inStr`, `inIdent`, `lineComment` and `blockComment` of `substituteParams`, of
-- which at most one is set. In `block_end` it is at the `/` that `i++` jumps over.
pub data Mode : Type 0 where
  top : Mode
  in_str : Mode
  in_ident : Mode
  line_comment : Mode
  block_comment : Mode
  block_end : Mode

-- `i+1 < len(sql) && sql[i+1] == d`
abbrev pub next_is : ℕ → List ℕ → Bool
next_is d [] = false
next_is d (c ∷ s) = c == d

-- The mode behind a byte that is written as it is.
unfoldable pub next_mode : Mode → ℕ → List ℕ → Mode
next_mode line_comment c s = if c == 10 then top else line_comment
next_mode block_comment c s = if (c == 42) && next_is 47 s then block_end else block_comment
next_mode block_end c s = top
next_mode in_str c s = if c == quote then top else in_str
next_mode in_ident c s = if c == double_quote then top else in_ident
next_mode top c s =
    if c == quote
    then in_str
    else if c == double_quote
    then in_ident
    else if (c == 45) && next_is 45 s
    then line_comment
    else if (c == 47) && next_is 42 s
    then block_comment
    else top

-- Whether a byte is a parameter marker: a `?` that no earlier case of the switch takes.
unfoldable pub is_marker : Mode → ℕ → Bool
is_marker top c = c == 63
is_marker _ c = false

pub data ParamError : Type 0 where
  more_markers : ℕ → ParamError
  marker_count : ℕ → ℕ → ParamError

-- The loop of `substituteParams`: `left` is `values[idx:]` and `out` the builder.
unfoldable pub substitute_loop : ℕ → Mode → List ℕ → ℕ → List Value → List ℕ → ParamError ⊎ List ℕ
unfolding next_mode is_marker render_literal
substitute_loop total mode [] idx [] out = inr out
substitute_loop total mode [] idx (v ∷ left) out = inl (marker_count idx total)
substitute_loop total mode (c ∷ s) idx [] out =
    let more = substitute_loop total (next_mode mode c s) s idx [] (out ++ (c ∷ [])) in
    if is_marker mode c then inl (more_markers total) else more
substitute_loop total mode (c ∷ s) idx (v ∷ left) out =
    let filled = substitute_loop total top s (idx + 1) left (out ++ render_literal v) in
    let more = substitute_loop total (next_mode mode c s) s idx (v ∷ left) (out ++ (c ∷ [])) in
    if is_marker mode c then filled else more

-- `substituteParams`
unfoldable pub substitute_params : List ℕ → List Value → ParamError ⊎ List ℕ
unfolding substitute_loop
substitute_params sql values = substitute_loop (length values) top sql 0 values []
