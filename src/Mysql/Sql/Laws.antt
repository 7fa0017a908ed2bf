-- ===== src/Mysql/Sql/Laws.antt =====
-- What stands in the table of results.
use vs_http_server.Prelude.{
  ℕ, ◌≡◌, Bool, true, false, Option, none, some, List, [], ◌∷◌, ◌++◌, length,
}
use vs_http_server.CString.{Bytes}
use vs_http_server.Mysql.Sql.{
  Stored, rows, no_result, MapRes, lookup, text_of, Handled, handled, thrown,
}

-- All values that the database sends, in their order, each as `text_of` makes a string of it.
abbrev pub row_pairs : List Bytes → List (Option Bytes) → MapRes
row_pairs (f ∷ fs) (v ∷ row) = (f, text_of v) ∷ row_pairs fs row
row_pairs _ _ = []

abbrev pub rows_pairs : List Bytes → List (List (Option Bytes)) → MapRes
rows_pairs fs [] = []
rows_pairs fs (row ∷ rest) = row_pairs fs row ++ rows_pairs fs rest

abbrev pub pairs_of : Stored → MapRes
pairs_of (rows fs rs) = rows_pairs fs rs
pairs_of (no_result b) = []

abbrev pub all_pairs : Stored → List Stored → MapRes
all_pairs s [] = pairs_of s
all_pairs s (t ∷ rest) = pairs_of s ++ all_pairs t rest

-- Each row has a value for each field.
abbrev pub AllWide : ℕ → List (List (Option Bytes)) → Type 0
AllWide n [] = Unit
AllWide n (row ∷ rest) = (length row ≡ n) × AllWide n rest

abbrev pub IsWide : Stored → Type 0
IsWide (rows fs rs) = AllWide (length fs) rs
IsWide (no_result b) = Unit

abbrev pub AllResults : List Stored → Type 0
AllResults [] = Unit
AllResults (s ∷ rest) = IsWide s × AllResults rest

abbrev or_else : Option Bytes → Option Bytes → Option Bytes
or_else none y = y
or_else (some x) y = some x

-- The two tables have the same values.
abbrev pub Agrees : MapRes → MapRes → Type 0
Agrees m n = (k : Bytes) → lookup k m ≡ lookup k n

-- What a call comes to. It throws where the statement fails, the connection is there, and the statement
-- fails again; else the table has for each key the first of all values that were sent, each cut at its
-- first NUL, behind those that it had before.
abbrev pub Handles : Bool → Bool → Bool → Stored → List Stored → MapRes → Handled → Type 0
Handles false true false s rest m r = r ≡ thrown
Handles query ping repeated s rest m r =
    (n : MapRes) × (r ≡ handled n) × Agrees n (m ++ all_pairs s rest)
