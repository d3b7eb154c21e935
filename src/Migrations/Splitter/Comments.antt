-- ===== src/Migrations/Splitter/Comments.antt =====
-- What the loop of `splitSqlStatements` makes of a comment, and of a semicolon.
use mathlib.Core.List.{append_assoc}
use hakawi.Common.{ℕ, ◌≡◌, ◌∙◌, ap, Bool, true, List, [], ◌∷◌, ◌++◌, ◌||◌, not, arith, eqb, every}
use hakawi.Common.Text.{Text}
use hakawi.Migrations.Splitter.{
  plain, in_line_comment, in_block_comment, push_statement, skip_line, skip_block, read_plain, step,
}
use hakawi.Migrations.Splitter.Progress.{read}
use hakawi.Migrations.Splitter.Reading.{at, read-as}

abbrev pub is_line_char : ℕ → Bool
is_line_char c = not (eqb c b'\n')

skip-line :
    (s t : Text) (done : List Text) (current : Text)
    → every is_line_char s ≡ true
    → read (s ++ b'\n' ∷ t) (at in_line_comment done current)
      ≡ read t (at plain done (current ++ b'\n' ∷ []))
unfolding step skip_line
skip-line [] t done current h =
    read-as b'\n' t (at in_line_comment done current) (at plain done (current ++ b'\n' ∷ []), t)
      (ground arith)
skip-line (c ∷ s) t done current h =
    read-as c (s ++ b'\n' ∷ t) (at in_line_comment done current)
      (at in_line_comment done current, s ++ b'\n' ∷ t) (ground arith)
    ∙ skip-line s t done current (ground arith)

-- A comment to the end of the line, with the end of the line.
abbrev pub line_comment : Text → Text
line_comment s = b'-' ∷ b'-' ∷ s ++ b'\n' ∷ []

pub read-line :
    (s t : Text) (done : List Text) (current : Text)
    → every is_line_char s ≡ true
    → read (line_comment s ++ t) (at plain done current)
      ≡ read t (at plain done (current ++ b'\n' ∷ []))
unfolding step read_plain
read-line s t done current h =
    ap (λ k. read (b'-' ∷ b'-' ∷ k) (at plain done current)) (append_assoc s (b'\n' ∷ []) t)
    ∙ read-as b'-' (b'-' ∷ s ++ b'\n' ∷ t) (at plain done current)
        (at in_line_comment done current, s ++ b'\n' ∷ t) (ground arith)
    ∙ skip-line s t done current h

abbrev pub is_remark_char : ℕ → Bool
is_remark_char c = not (eqb c b'*' || (eqb c b'/' || eqb c b'\n'))

skip-remark :
    (s t : Text) (done : List Text) (current : Text)
    → every is_remark_char s ≡ true
    → read (s ++ b'*' ∷ b'/' ∷ t) (at (in_block_comment 1) done current)
      ≡ read t (at plain done current)
unfolding step skip_block
skip-remark [] t done current h =
    read-as b'*' (b'/' ∷ t) (at (in_block_comment 1) done current) (at plain done current, t)
      (ground arith)
skip-remark (c ∷ s) t done current h =
    read-as c (s ++ b'*' ∷ b'/' ∷ t) (at (in_block_comment 1) done current)
      (at (in_block_comment 1) done current, s ++ b'*' ∷ b'/' ∷ t) (ground arith)
    ∙ skip-remark s t done current (ground arith)

-- A block comment.
abbrev pub block_comment : Text → Text
block_comment s = b'/' ∷ b'*' ∷ s ++ b'*' ∷ b'/' ∷ []

pub read-remark :
    (s t : Text) (done : List Text) (current : Text)
    → every is_remark_char s ≡ true
    → read (block_comment s ++ t) (at plain done current) ≡ read t (at plain done current)
unfolding step read_plain
read-remark s t done current h =
    ap (λ k. read (b'/' ∷ b'*' ∷ k) (at plain done current)) (append_assoc s (b'*' ∷ b'/' ∷ []) t)
    ∙ read-as b'/' (b'*' ∷ s ++ b'*' ∷ b'/' ∷ t) (at plain done current)
        (at (in_block_comment 1) done current, s ++ b'*' ∷ b'/' ∷ t) (ground arith)
    ∙ skip-remark s t done current h

pub read-semicolon :
    (t : Text) (done : List Text) (current : Text)
    → read (b';' ∷ t) (at plain done current) ≡ read t (at plain (push_statement current done) [])
unfolding step read_plain
read-semicolon t done current =
    read-as b';' t (at plain done current) (at plain (push_statement current done) [], t)
      (ground arith)
