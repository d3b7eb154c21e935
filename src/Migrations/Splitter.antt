-- ===== src/Migrations/Splitter.antt =====
-- backend/src/db/migrations/sql-statement-splitter.ts. A text is the list of its code units, and what
-- is still to be read stands for the index. The five variables of the loop are one mode, since each is
-- set only while the others are off. `trim` takes ASCII white space off.
pub mod Progress
pub mod Reading
pub mod Blocks
pub mod Comments
pub mod Scripts
use hakawi.Common.{
  ℕ, zero, suc, ◌+◌, ◌-◌, String, Bool, true, false, Option, none, some, List, [], ◌∷◌, ◌++◌, ◌&&◌,
  ◌||◌, eqb, leb, if◌then◌else◌, length, drop,
}
use hakawi.Common.Text.{Text, trim, is_lower, is_upper}

-- Within a block comment its depth, within a dollar-quoted block the word between the two dollars of
-- its tag.
pub data Mode : Type 0 where
  plain in_line_comment in_single_quote in_double_quote : Mode
  in_block_comment : ℕ → Mode
  in_dollar : Text → Mode

pub record State : Type 0 where
  pub statements : List Text
  pub current : Text
  pub mode : Mode

-- The next code unit is this one.
abbrev pub starts_with : ℕ → Text → Bool
starts_with c [] = false
starts_with c (d ∷ s) = eqb d c

abbrev pub is_word_start : ℕ → Bool
is_word_start c = is_upper c || (is_lower c || eqb c b'_')

abbrev pub is_word_char : ℕ → Bool
is_word_char c = is_word_start c || (leb b'0' c && leb c b'9')

-- `isDollarTagStart`, of what follows the dollar.
abbrev pub is_dollar_tag_start : Text → Bool
is_dollar_tag_start [] = false
is_dollar_tag_start (c ∷ s) = eqb c b'$' || is_word_start c

abbrev pub take_word : Text → Text
take_word [] = []
take_word (c ∷ s) = if is_word_char c then c ∷ take_word s else []

abbrev pub tag_of : Text → Text
tag_of word = b'$' ∷ word ++ b'$' ∷ []

-- `readDollarTag`, of what follows the dollar: the word of the tag.
unfoldable pub read_dollar_tag : Text → Option Text
read_dollar_tag s =
    if is_dollar_tag_start s && starts_with b'$' (drop (length (take_word s)) s)
    then some (take_word s)
    else none

-- `startsWith`.
abbrev pub has_prefix : Text → Text → Bool
has_prefix [] s = true
has_prefix (c ∷ p) [] = false
has_prefix (c ∷ p) (d ∷ s) = eqb c d && has_prefix p s

abbrev pub push_nonempty : Text → List Text → List Text
push_nonempty [] collected = collected
push_nonempty (c ∷ s) collected = collected ++ (c ∷ s) ∷ []

unfoldable pub push_statement : Text → List Text → List Text
push_statement statement collected = push_nonempty (trim statement) collected

abbrev pub append : State → Text → State
append st s = record st { current = st.current ++ s }

abbrev pub enter : Mode → State → State
enter m st = record st { mode = m }

abbrev pub block_of : ℕ → Mode
block_of zero = plain
block_of (suc n) = in_block_comment (suc n)

-- One round of the loop gives the next state and what is left to read. First, within a line comment.
unfoldable pub skip_line : ℕ → Text → State → State × Text
skip_line c s st = if eqb c b'\n' then (enter plain (append st (c ∷ [])), s) else (st, s)

unfoldable pub copy_dollar : Text → ℕ → Text → State → State × Text
copy_dollar word c s st =
    if has_prefix (tag_of word) (c ∷ s)
    then (enter plain (append st (tag_of word)), drop (suc (length word)) s)
    else (append st (c ∷ []), s)

unfoldable pub skip_block : ℕ → ℕ → Text → State → State × Text
skip_block depth c s st =
    if eqb c b'/' && starts_with b'*' s
    then (enter (in_block_comment (depth + 1)) st, drop 1 s)
    else if eqb c b'*' && starts_with b'/' s
    then (enter (block_of (depth - 1)) st, drop 1 s)
    else if eqb c b'\n'
    then (append st (c ∷ []), s)
    else (st, s)

-- Within quotes: a doubled quote is copied, a single one ends the text.
unfoldable pub copy_quoted : ℕ → ℕ → Text → State → State × Text
copy_quoted quote c s st =
    if eqb c quote
    then (if starts_with quote s
        then (append st (quote ∷ quote ∷ []), drop 1 s)
        else (enter plain (append st (c ∷ [])), s))
    else (append st (c ∷ []), s)

abbrev pub open_dollar : Option Text → Text → State → State × Text
open_dollar none s st = (append st (b'$' ∷ []), s)
open_dollar (some word) s st =
    (enter (in_dollar word) (append st (tag_of word)), drop (suc (length word)) s)

unfoldable pub read_plain : ℕ → Text → State → State × Text
unfolding read_dollar_tag push_statement
read_plain c s st =
    if eqb c b'-' && starts_with b'-' s
    then (enter in_line_comment st, drop 1 s)
    else if eqb c b'/' && starts_with b'*' s
    then (enter (in_block_comment 1) st, drop 1 s)
    else if eqb c b'\''
    then (enter in_single_quote (append st (c ∷ [])), s)
    else if eqb c b'"'
    then (enter in_double_quote (append st (c ∷ [])), s)
    else if eqb c b'$'
    then open_dollar (read_dollar_tag s) s st
    else if eqb c b';'
    then (record st { statements = push_statement st.current st.statements; current = [] }, s)
    else (append st (c ∷ []), s)

unfoldable pub step : Mode → ℕ → Text → State → State × Text
unfolding skip_line copy_dollar skip_block copy_quoted read_plain
step plain c s st = read_plain c s st
step in_line_comment c s st = skip_line c s st
step in_single_quote c s st = copy_quoted b'\'' c s st
step in_double_quote c s st = copy_quoted b'"' c s st
step (in_block_comment depth) c s st = skip_block depth c s st
step (in_dollar word) c s st = copy_dollar word c s st

-- The loop; `none` when the fuel runs out before the text does.
unfoldable pub run : ℕ → Text → State → Option State
unfolding step
run fuel [] st = some st
run zero (c ∷ s) st = none
run (suc fuel) (c ∷ s) st = let next = step st.mode c s st in run fuel next.1 next.0

-- `MigrationStructureError` by the construct that is not closed.
pub data Splitting : Type 0 where
  split_into : List Text → Splitting
  unterminated_literal unterminated_identifier unterminated_comment out_of_fuel : Splitting
  unterminated_dollar : Text → Splitting

abbrev pub close : Mode → State → Splitting
close plain st = split_into (push_statement st.current st.statements)
close in_line_comment st = split_into (push_statement st.current st.statements)
close in_single_quote st = unterminated_literal
close in_double_quote st = unterminated_identifier
close (in_block_comment depth) st = unterminated_comment
close (in_dollar word) st = unterminated_dollar (tag_of word)

abbrev pub finish : Option State → Splitting
finish none = out_of_fuel
finish (some st) = close st.mode st

abbrev pub beginning : State
beginning = record { statements = []; current = []; mode = plain }

unfoldable pub split_with_fuel : ℕ → Text → Splitting
unfolding run
split_with_fuel fuel source = finish (run fuel source beginning)

unfoldable pub split_sql_statements : Text → Splitting
unfolding split_with_fuel
split_sql_statements source = split_with_fuel (length source) source
