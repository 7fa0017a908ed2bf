-- ===== src/Mysql/Sql.antt =====
-- `MysqlCPP::Mysql_HandleSQL` (mysql_cpp.cpp), with the table of results that it fills. What the
-- database answers is an argument.
pub mod Laws
use vs_http_server.Prelude.{
  ℕ, Bool, true, false, Option, none, some, List, [], ◌∷◌, ◌++◌, ◌==◌, ◌&&◌, if◌then◌else◌, Outcome,
  ret, fault, ◌>>=◌,
}
use vs_http_server.CString.{Bytes, codes}

-- `mysql_store_result`: the names of the fields, which have no NUL, and the rows, where a value may be NULL; or no result,
-- with whether `mysql_field_count` is 0.
pub data Stored : Type 0 where
  rows : List Bytes → List (List (Option Bytes)) → Stored
  no_result : Bool → Stored

abbrev pub same_text : Bytes → Bytes → Bool
same_text [] [] = true
same_text (x ∷ xs) (y ∷ ys) = x == y && same_text xs ys
same_text _ _ = false

-- `m_MapRes`: the pairs that were inserted, the first insertion of a key alone.
abbrev pub MapRes : Type 0
MapRes = List (Bytes × Bytes)

abbrev pub lookup : Bytes → MapRes → Option Bytes
lookup k [] = none
lookup k ((n, v) ∷ m) = if same_text n k then some v else lookup k m

-- `map::insert`.
unfoldable pub insert_value : Bytes → Bytes → MapRes → MapRes
insert_value k v m = elim (lookup k m) [ none ↦ m ++ ((k, v) ∷ []) | some _ ↦ m ]

-- The bytes up to the first NUL. (Behind a value stands a NUL.)
abbrev pub up_to_nul : Bytes → Bytes
up_to_nul [] = []
up_to_nul (c ∷ v) = if c == 0 then [] else c ∷ up_to_nul v

-- The string that is made of a value, which is a `char *`; its length is not looked at.
abbrev pub text_of : Option Bytes → Bytes
text_of none = codes "NULL"
text_of (some v) = up_to_nul v

-- The loop over the fields of a row.
unfoldable pub insert_row : List Bytes → List (Option Bytes) → MapRes → Outcome MapRes
unfolding insert_value
insert_row [] row m = ret m
insert_row (f ∷ fs) [] m = fault
insert_row (f ∷ fs) (v ∷ row) m = insert_row fs row (insert_value f (text_of v) m)

unfoldable pub insert_rows : List Bytes → List (List (Option Bytes)) → MapRes → Outcome MapRes
unfolding insert_row
insert_rows fs [] m = ret m
insert_rows fs (row ∷ rest) m = do n ← insert_row fs row m; insert_rows fs rest n

unfoldable pub take_result : Stored → MapRes → Outcome MapRes
unfolding insert_rows
take_result (rows fs rs) m = insert_rows fs rs m
take_result (no_result _) m = ret m

-- The loop over the results, which takes the first in any case.
unfoldable pub take_results : Stored → List Stored → MapRes → Outcome MapRes
unfolding take_result
take_results s [] m = take_result s m
take_results s (t ∷ rest) m = do n ← take_result s m; take_results t rest n

-- A call returns the table, or throws.
pub data Handled : Type 0 where
  handled : MapRes → Handled
  thrown : Handled

-- The arguments: whether `mysql_query`, then `mysql_ping`, then `mysql_query` again succeed, and the
-- results of the statement. Behind a failed ping the results are read nevertheless.
unfoldable pub handle_sql : Bool → Bool → Bool → Stored → List Stored → MapRes → Outcome Handled
unfolding take_results
handle_sql false true false s rest m = ret thrown
handle_sql query ping repeated s rest m = do n ← take_results s rest m; ret (handled n)
