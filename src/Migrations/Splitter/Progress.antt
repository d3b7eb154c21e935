-- ===== src/Migrations/Splitter/Progress.antt =====
-- The loop of `splitSqlStatements` ends: each round reads at least one code unit.
use hakawi.Common.{
  ℕ, zero, suc, ◌≤◌, ◌≡◌, ◌≢◌, ◌∙◌, refl, sym, ap, Option, none, some, [], ◌∷◌, arith, length, drop,
}
use hakawi.Common.Text.{Text}
use hakawi.Migrations.Splitter.{
  Mode, plain, in_line_comment, in_single_quote, in_double_quote, in_block_comment, in_dollar,
  State, read_dollar_tag, skip_line, copy_dollar, skip_block, copy_quoted, open_dollar, read_plain,
  step, run, close, finish, out_of_fuel, beginning, split_with_fuel, split_sql_statements,
}

length-drop : (n : ℕ) (s : Text) → length (drop n s) ≤ length s
length-drop zero s = omega arith
length-drop (suc n) [] = omega arith
length-drop (suc n) (c ∷ s) = omega (arith, length-drop n s)

length-open : (o : Option Text) (s : Text) (st : State) → length (open_dollar o s st).1 ≤ length s
length-open none s st = omega arith
length-open (some word) s st = length-drop (suc (length word)) s

length-step : (m : Mode) (c : ℕ) (s : Text) (st : State) → length (step m c s st).1 ≤ length s
unfolding step read_plain skip_line copy_quoted skip_block copy_dollar
length-step plain c s st = ground (arith, length-drop 1 s, length-open (read_dollar_tag s) s st)
length-step in_line_comment c s st = ground arith
length-step in_single_quote c s st = ground (arith, length-drop 1 s)
length-step in_double_quote c s st = ground (arith, length-drop 1 s)
length-step (in_block_comment depth) c s st = ground (arith, length-drop 1 s)
length-step (in_dollar word) c s st = ground (arith, length-drop (suc (length word)) s)

-- With enough fuel the loop reads the whole text, and more fuel changes nothing.
run_finishes :
    (fuel more : ℕ) (s : Text) (st : State)
    → length s ≤ fuel
    → fuel ≤ more
    → (end : State) × (run fuel s st ≡ some end) × (run more s st ≡ some end)
unfolding run
run_finishes fuel more [] st h k = (st, refl, refl)
run_finishes zero more (c ∷ s) st h k = absurd (omega arith)
run_finishes (suc fuel) zero (c ∷ s) st h k = absurd (omega arith)
run_finishes (suc fuel) (suc more) (c ∷ s) st h k =
    let shorter = length-step st.mode c s st in
    run_finishes fuel more (step st.mode c s st).1 (step st.mode c s st).0 (omega arith)
      (omega arith)

close-finished : (m : Mode) (st : State) → close m st ≢ out_of_fuel
close-finished plain st e = ground arith
close-finished in_line_comment st e = ground arith
close-finished in_single_quote st e = ground arith
close-finished in_double_quote st e = ground arith
close-finished (in_block_comment depth) st e = ground arith
close-finished (in_dollar word) st e = ground arith

-- What the loop makes of a text, whatever fuel it has.
unfoldable pub read : Text → State → Option State
read s st = run (length s) s st

pub read_end : (st : State) → read [] st ≡ some st
unfolding read run
read_end st = refl

-- One round of the loop.
pub read-step :
    (c : ℕ) (s : Text) (st : State)
    → read (c ∷ s) st ≡ read (step st.mode c s st).1 (step st.mode c s st).0
unfolding read run
read-step c s st =
    let next = step st.mode c s st in
    let (end, e, f) =
      run_finishes (length next.1) (length s) next.1 next.0 (omega arith)
        (length-step st.mode c s st) in
    f ∙ sym e

-- The splitter reads every text to its end: the fuel that it is given is enough, and any larger fuel
-- gives the same answer.
pub split_terminates :
    (source : Text) (fuel : ℕ)
    → length source ≤ fuel
    → (split_with_fuel fuel source ≡ split_sql_statements source)
      × (split_sql_statements source ≢ out_of_fuel)
unfolding split_sql_statements split_with_fuel
split_terminates source fuel h =
    let (end, e, f) = run_finishes (length source) fuel source beginning (omega arith) h in
    (ap finish f ∙ sym (ap finish e), λ k. close-finished end.mode end (sym (ap finish e) ∙ k))
