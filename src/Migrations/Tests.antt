-- ===== src/Migrations/Tests.antt =====
-- Concrete scripts: the theorems of this folder at inputs that meet their hypotheses, and a run.
use hakawi.Common.{◌≡◌, ◌≢◌, refl, List, [], ◌∷◌, arith}
use hakawi.Common.Text.{codes, trim}
use hakawi.Migrations.Splitter.{
  split_sql_statements, split_with_fuel, split_into, out_of_fuel, unterminated_literal,
}
use hakawi.Migrations.Splitter.Progress.{split_terminates}
use hakawi.Migrations.Splitter.Scripts.{
  Piece, words, literal, remark, remark_line, block, script, statements_of, split-script,
}

two_statements :
    split_sql_statements (codes "select ';'; -- x\n do $a$ ; $a$;/* ; */")
    ≡ split_into (codes "select ';'" ∷ codes "do $a$ ; $a$" ∷ [])
unfolding split_sql_statements trim
two_statements = refl

open_literal : split_sql_statements (codes "select 'a;") ≡ unterminated_literal
unfolding split_sql_statements
open_literal = refl

abbrev a_script : List (List Piece)
a_script =
    (words (codes "select")
      ∷ remark (codes "all")
      ∷ words (codes "1 ")
      ∷ literal (codes "it's; ")
      ∷ [])
    ∷ (remark_line (codes " nothing; ") ∷ [])
    ∷ (words (codes " do ") ∷ block (codes "fn") (codes "a; 'b") ∷ [])
    ∷ []

what_is_left : statements_of a_script ≡ codes "select1 'it''s; '" ∷ codes "do $fn$a; 'b$fn$" ∷ []
unfolding trim
what_is_left = refl

split-script_example : split_sql_statements (script a_script) ≡ split_into (statements_of a_script)
split-script_example = split-script a_script refl

split_terminates_example :
    (split_with_fuel 99 (codes "select 1;") ≡ split_sql_statements (codes "select 1;"))
    × (split_sql_statements (codes "select 1;") ≢ out_of_fuel)
split_terminates_example = split_terminates (codes "select 1;") 99 (omega arith)
