-- ===== src/Migrations/Splitter/Blocks.antt =====
-- What the loop of `splitSqlStatements` makes of a dollar-quoted block.
use mathlib.Core.List.{append_assoc}
use hakawi.Common.{
  ℕ, suc, ◌≡◌, ◌∙◌, refl, ap, Bool, true, some, List, [], ◌∷◌, ◌++◌, ◌&&◌, not, arith, eqb, every,
  length, drop,
}
use hakawi.Common.Text.{Text}
use hakawi.Migrations.Splitter.{
  plain, in_dollar, is_word_start, is_word_char, is_dollar_tag_start, read_dollar_tag, take_word,
  has_prefix, tag_of, copy_dollar, read_plain, step,
}
use hakawi.Migrations.Splitter.Progress.{read}
use hakawi.Migrations.Splitter.Reading.{at, read-as, regroup}

abbrev pub starts_word : Text → Bool
starts_word [] = true
starts_word (c ∷ s) = is_word_start c

-- A text that can stand between the dollars of a tag.
abbrev pub is_tag_word : Text → Bool
is_tag_word w = starts_word w && every is_word_char w

take_word-tag : (w t : Text) → every is_word_char w ≡ true → take_word (w ++ b'$' ∷ t) ≡ w
take_word-tag [] t h = ground arith
take_word-tag (c ∷ w) t h = ground (arith, take_word-tag w t)

drop_first : (w t : Text) → drop (length w) (w ++ t) ≡ t
drop_first [] t = refl
drop_first (c ∷ w) t = drop_first w t

drop_tag : (w t : Text) → drop (suc (length w)) (w ++ b'$' ∷ t) ≡ t
drop_tag [] t = refl
drop_tag (c ∷ w) t = drop_tag w t

drop_tag_first : (w t : Text) → drop (suc (length w)) (w ++ b'$' ∷ [] ++ t) ≡ t
drop_tag_first w t = ap (drop (suc (length w))) (append_assoc w (b'$' ∷ []) t) ∙ drop_tag w t

has_prefix_first : (p t : Text) → has_prefix p (p ++ t) ≡ true
has_prefix_first [] t = refl
has_prefix_first (c ∷ p) t = ground (arith, has_prefix_first p t)

start-tag : (w t : Text) → is_tag_word w ≡ true → is_dollar_tag_start (w ++ b'$' ∷ t) ≡ true
start-tag [] t h = refl
start-tag (c ∷ w) t h = ground arith

read_dollar_tag-tag : (w t : Text) → is_tag_word w ≡ true → read_dollar_tag (w ++ b'$' ∷ t) ≡ some w
unfolding read_dollar_tag
read_dollar_tag-tag w t h =
    ground (arith, take_word-tag w t (ground arith), drop_first w (b'$' ∷ t), start-tag w t h)

abbrev pub is_body_char : ℕ → Bool
is_body_char c = not (eqb c b'$')

read-body :
    (w b t : Text) (done : List Text) (current : Text)
    → every is_body_char b ≡ true
    → read (b ++ tag_of w ++ t) (at (in_dollar w) done current)
      ≡ read t (at plain done (current ++ (b ++ tag_of w)))
unfolding step copy_dollar
read-body w [] t done current h =
    read-as b'$' (w ++ b'$' ∷ [] ++ t) (at (in_dollar w) done current)
      (at plain done (current ++ tag_of w), t)
      (ground (arith, has_prefix_first (w ++ b'$' ∷ []) t, drop_tag_first w t))
read-body w (c ∷ b) t done current h =
    read-as c (b ++ tag_of w ++ t) (at (in_dollar w) done current)
      (at (in_dollar w) done (current ++ c ∷ []), b ++ tag_of w ++ t) (ground arith)
    ∙ read-body w b t done (current ++ c ∷ []) (ground arith)
    ∙ regroup t done current (c ∷ []) (b ++ tag_of w)

-- A dollar-quoted block.
abbrev pub dollar_block : Text → Text → Text
dollar_block w b = tag_of w ++ (b ++ tag_of w)

pub read-block :
    (w b t : Text) (done : List Text) (current : Text)
    → is_tag_word w ≡ true
    → every is_body_char b ≡ true
    → read (dollar_block w b ++ t) (at plain done current)
      ≡ read t (at plain done (current ++ dollar_block w b))
unfolding step read_plain
read-block w b t done current h k =
    let inside = b ++ tag_of w ++ t in
    ap (λ s. read (b'$' ∷ s) (at plain done current))
      (append_assoc (w ++ b'$' ∷ []) (b ++ tag_of w) t ∙ append_assoc w (b'$' ∷ []) inside)
    ∙ read-as b'$' (w ++ b'$' ∷ inside) (at plain done current)
        (at (in_dollar w) done (current ++ tag_of w), inside)
        (ground (arith, read_dollar_tag-tag w inside h, drop_tag w inside))
    ∙ read-body w b t done (current ++ tag_of w) k
    ∙ regroup t done current (tag_of w) (b ++ tag_of w)
