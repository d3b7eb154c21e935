-- ===== src/Migrations/Splitter/Scripts.antt =====
-- A script written out piece by piece comes back statement by statement.
use mathlib.Core.List.{append_assoc, append-nil}
use hakawi.Common.{
  ℕ, ◌≡◌, ◌∙◌, refl, sym, ap, Bool, true, false, some, List, [], ◌∷◌, ◌++◌, ◌&&◌, not, arith,
  if◌then◌else◌, every, map, filter,
}
use hakawi.Common.Text.{Text, trim}
use hakawi.Migrations.Splitter.{
  plain, starts_with, push_nonempty, push_statement, finish, split_into, split_with_fuel,
  split_sql_statements,
}
use hakawi.Migrations.Splitter.Progress.{read, read_end}
use hakawi.Migrations.Splitter.Reading.{
  at, is_ordinary, quoted, regroup, read-ordinary, read-literal, read-identifier,
}
use hakawi.Migrations.Splitter.Blocks.{is_tag_word, is_body_char, dollar_block, read-block}
use hakawi.Migrations.Splitter.Comments.{
  is_line_char, line_comment, read-line, is_remark_char, block_comment, read-remark, read-semicolon,
}

-- Ordinary text, a string literal, a quoted identifier, a dollar-quoted block with its tag, a comment
-- to the end of the line, a block comment.
pub data Piece : Type 0 where
  words literal identifier remark_line remark : Text → Piece
  block : Text → Text → Piece

abbrev pub print : Piece → Text
print (words s) = s
print (literal s) = quoted b'\'' s
print (identifier s) = quoted b'"' s
print (remark_line s) = line_comment s
print (remark s) = block_comment s
print (block w b) = dollar_block w b

-- What a statement keeps of a piece: of comments, the end of the line.
abbrev pub keep : Piece → Text
keep (words s) = s
keep (literal s) = quoted b'\'' s
keep (identifier s) = quoted b'"' s
keep (remark_line s) = b'\n' ∷ []
keep (remark s) = []
keep (block w b) = dollar_block w b

abbrev pub print_all : List Piece → Text
print_all [] = []
print_all (p ∷ ps) = print p ++ print_all ps

abbrev pub keep_all : List Piece → Text
keep_all [] = []
keep_all (p ∷ ps) = keep p ++ keep_all ps

-- The piece says no more than its kind allows, and the text after it does not go on with its quote.
abbrev pub is_readable : Piece → Text → Bool
is_readable (words s) next = every is_ordinary s
is_readable (literal s) next = not (starts_with b'\'' next)
is_readable (identifier s) next = not (starts_with b'"' next)
is_readable (remark_line s) next = every is_line_char s
is_readable (remark s) next = every is_remark_char s
is_readable (block w b) next = is_tag_word w && every is_body_char b

abbrev pub are_readable : List Piece → Bool
are_readable [] = true
are_readable (p ∷ ps) = is_readable p (print_all ps) && are_readable ps

read-piece :
    (p : Piece) (t : Text) (done : List Text) (current : Text)
    → is_readable p t ≡ true
    → read (print p ++ t) (at plain done current) ≡ read t (at plain done (current ++ keep p))
read-piece (words s) t done current h = read-ordinary s t done current h
read-piece (literal s) t done current h = read-literal s t done current (ground arith)
read-piece (identifier s) t done current h = read-identifier s t done current (ground arith)
read-piece (remark_line s) t done current h = read-line s t done current h
read-piece (remark s) t done current h =
    read-remark s t done current h ∙ ap (λ k. read t (at plain done k)) (sym (append-nil current))
read-piece (block w b) t done current h =
    read-block w b t done current (ground arith) (ground arith)

starts_with-append :
    (q : ℕ) (s t : Text)
    → starts_with q s ≡ false
    → starts_with q t ≡ false
    → starts_with q (s ++ t) ≡ false
starts_with-append q [] t h k = k
starts_with-append q (c ∷ s) t h k = h

readable-append :
    (p : Piece) (s t : Text) → is_readable p s ≡ true → is_readable p (s ++ b';' ∷ t) ≡ true
readable-append (words x) s t h = h
readable-append (literal x) s t h = ground (arith, starts_with-append b'\'' s (b';' ∷ t))
readable-append (identifier x) s t h = ground (arith, starts_with-append b'"' s (b';' ∷ t))
readable-append (remark_line x) s t h = h
readable-append (remark x) s t h = h
readable-append (block w b) s t h = h

read-pieces :
    (ps : List Piece) (t : Text) (done : List Text) (current : Text)
    → are_readable ps ≡ true
    → read (print_all ps ++ b';' ∷ t) (at plain done current)
      ≡ read (b';' ∷ t) (at plain done (current ++ keep_all ps))
read-pieces [] t done current h =
    ap (λ k. read (b';' ∷ t) (at plain done k)) (sym (append-nil current))
read-pieces (p ∷ ps) t done current h =
    ap (λ k. read k (at plain done current)) (append_assoc (print p) (print_all ps) (b';' ∷ t))
    ∙ read-piece p (print_all ps ++ b';' ∷ t) done current
        (readable-append p (print_all ps) t (ground arith))
    ∙ read-pieces ps t done (current ++ keep p) (ground arith)
    ∙ regroup (b';' ∷ t) done current (keep p) (keep_all ps)

-- Each statement with a semicolon after it.
abbrev pub script : List (List Piece) → Text
script [] = []
script (ps ∷ pss) = print_all ps ++ b';' ∷ script pss

abbrev pub is_nonempty : Text → Bool
is_nonempty [] = false
is_nonempty (c ∷ s) = true

-- The statements of the script that say something.
abbrev pub statements_of : List (List Piece) → List Text
statements_of pss = filter is_nonempty (map (λ ps. trim (keep_all ps)) pss)

push-append :
    (s : Text) (done rest : List Text)
    → push_nonempty s done ++ rest ≡ done ++ (if is_nonempty s then s ∷ rest else rest)
push-append [] done rest = refl
push-append (c ∷ s) done rest = append_assoc done ((c ∷ s) ∷ []) rest

read-script :
    (pss : List (List Piece)) (done : List Text)
    → every are_readable pss ≡ true
    → read (script pss) (at plain done []) ≡ some (at plain (done ++ statements_of pss) [])
unfolding push_statement
read-script [] done h =
    read_end (at plain done []) ∙ ap (λ k. some (at plain k [])) (sym (append-nil done))
read-script (ps ∷ pss) done h =
    read-pieces ps (script pss) done [] (ground arith)
    ∙ read-semicolon (script pss) done (keep_all ps)
    ∙ read-script pss (push_statement (keep_all ps) done) (ground arith)
    ∙ ap (λ k. some (at plain k [])) (push-append (trim (keep_all ps)) done (statements_of pss))

-- A script of readable statements, each ended by a semicolon, is split into just these statements,
-- trimmed, without the comments and without the statements of which nothing is left. A semicolon or a
-- comment sign within a literal, an identifier or a dollar-quoted block ends nothing. Of a block
-- comment in one line nothing is left, not even a space.
pub split-script :
    (pss : List (List Piece))
    → every are_readable pss ≡ true
    → split_sql_statements (script pss) ≡ split_into (statements_of pss)
unfolding split_sql_statements split_with_fuel read push_statement trim
split-script pss h = ap finish (read-script pss [] h)
