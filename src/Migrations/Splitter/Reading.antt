-- ===== src/Migrations/Splitter/Reading.antt =====
-- What the loop of `splitSqlStatements` makes of each kind of text.
use mathlib.Core.List.{append_assoc, append-nil}
use hakawi.Common.{
  ℕ, ◌≡◌, ◌∙◌, refl, sym, ap, Bool, true, false, List, [], ◌∷◌, ◌++◌, ◌||◌, not, arith, eqb,
  if◌then◌else◌, every, Bool-cases, inl, inr,
}
use hakawi.Common.Text.{Text}
use hakawi.Migrations.Splitter.{
  Mode, plain, in_single_quote, in_double_quote, State, starts_with, copy_quoted, read_plain, step,
}
use hakawi.Migrations.Splitter.Progress.{read, read-step}

abbrev pub at : Mode → List Text → Text → State
at m done current = record { statements = done; current = current; mode = m }

-- A code unit that opens nothing and ends nothing.
abbrev pub is_ordinary : ℕ → Bool
is_ordinary c =
    not (eqb c b'-' || (eqb c b'/' || (eqb c b'\'' || (eqb c b'"' || (eqb c b'$' || eqb c b';')))))

pub read-as :
    (c : ℕ) (s : Text) (st : State) (after : State × Text)
    → step st.mode c s st ≡ after
    → read (c ∷ s) st ≡ read after.1 after.0
read-as c s st after e = read-step c s st ∙ ap (λ (n : State × Text). read n.1 n.0) e

-- Reading on with what was read put together another way.
pub regroup :
    (t : Text) (done : List Text) (current a b : Text)
    → read t (at plain done (current ++ a ++ b)) ≡ read t (at plain done (current ++ (a ++ b)))
regroup t done current a b = ap (λ k. read t (at plain done k)) (append_assoc current a b)

pub read-ordinary :
    (s t : Text) (done : List Text) (current : Text)
    → every is_ordinary s ≡ true
    → read (s ++ t) (at plain done current) ≡ read t (at plain done (current ++ s))
unfolding step read_plain
read-ordinary [] t done current h = ap (λ k. read t (at plain done k)) (sym (append-nil current))
read-ordinary (c ∷ s) t done current h =
    read-as c (s ++ t) (at plain done current) (at plain done (current ++ c ∷ []), s ++ t)
      (ground arith)
    ∙ read-ordinary s t done (current ++ c ∷ []) (ground arith)
    ∙ regroup t done current (c ∷ []) s

-- A quote within the quotes is doubled.
abbrev pub doubled : ℕ → Text → Text
doubled q [] = []
doubled q (c ∷ s) = if eqb c q then q ∷ q ∷ doubled q s else c ∷ doubled q s

module _ (q : ℕ) (m : Mode)
    (copies : (c : ℕ) (s : Text) (st : State) → step m c s st ≡ copy_quoted q c s st)
    (done : List Text) (t : Text) (apart : starts_with q t ≡ false) where
  copied_end :
      (current : Text)
      → copy_quoted q q t (at m done current) ≡ (at plain done (current ++ q ∷ []), t)
  unfolding copy_quoted
  copied_end current = ground (arith, apart)

  copied_two :
      (s current : Text)
      → copy_quoted q q (q ∷ s) (at m done current) ≡ (at m done (current ++ q ∷ q ∷ []), s)
  unfolding copy_quoted
  copied_two s current = ground arith

  copied_one :
      (c : ℕ) (s current : Text)
      → eqb c q ≡ false
      → copy_quoted q c s (at m done current) ≡ (at m done (current ++ c ∷ []), s)
  unfolding copy_quoted
  copied_one c s current h = ground arith

  read-quoted :
      (s current : Text)
      → read (doubled q s ++ q ∷ t) (at m done current)
        ≡ read t (at plain done (current ++ (doubled q s ++ q ∷ [])))
  read-quoted [] current =
      read-as q t (at m done current) _ (copies q t (at m done current) ∙ copied_end current)
  read-quoted (c ∷ s) current = elim (Bool-cases (eqb c q)) [
    | inl hit ↦ rw hit (
        read-as q (q ∷ doubled q s ++ q ∷ t) (at m done current) _ (
          copies q (q ∷ doubled q s ++ q ∷ t) (at m done current)
          ∙ copied_two (doubled q s ++ q ∷ t) current)
        ∙ read-quoted s (current ++ q ∷ q ∷ [])
        ∙ regroup t done current (q ∷ q ∷ []) (doubled q s ++ q ∷ []))
    | inr miss ↦ rw miss (
        read-as c (doubled q s ++ q ∷ t) (at m done current) _ (
          copies c (doubled q s ++ q ∷ t) (at m done current)
          ∙ copied_one c (doubled q s ++ q ∷ t) current miss)
        ∙ read-quoted s (current ++ c ∷ [])
        ∙ regroup t done current (c ∷ []) (doubled q s ++ q ∷ []))
  ]

-- A literal or a quoted identifier.
abbrev pub quoted : ℕ → Text → Text
quoted q s = q ∷ doubled q s ++ q ∷ []

pub read-literal :
    (s t : Text) (done : List Text) (current : Text)
    → starts_with b'\'' t ≡ false
    → read (quoted b'\'' s ++ t) (at plain done current)
      ≡ read t (at plain done (current ++ quoted b'\'' s))
unfolding step read_plain
read-literal s t done current apart =
    ap (λ k. read (b'\'' ∷ k) (at plain done current))
      (append_assoc (doubled b'\'' s) (b'\'' ∷ []) t)
    ∙ read-as b'\'' (doubled b'\'' s ++ b'\'' ∷ t) (at plain done current)
        (at in_single_quote done (current ++ b'\'' ∷ []), doubled b'\'' s ++ b'\'' ∷ t)
        (ground arith)
    ∙ read-quoted b'\'' in_single_quote (λ c k st. refl) done t apart s (current ++ b'\'' ∷ [])
    ∙ regroup t done current (b'\'' ∷ []) (doubled b'\'' s ++ b'\'' ∷ [])

pub read-identifier :
    (s t : Text) (done : List Text) (current : Text)
    → starts_with b'"' t ≡ false
    → read (quoted b'"' s ++ t) (at plain done current)
      ≡ read t (at plain done (current ++ quoted b'"' s))
unfolding step read_plain
read-identifier s t done current apart =
    ap (λ k. read (b'"' ∷ k) (at plain done current)) (append_assoc (doubled b'"' s) (b'"' ∷ []) t)
    ∙ read-as b'"' (doubled b'"' s ++ b'"' ∷ t) (at plain done current)
        (at in_double_quote done (current ++ b'"' ∷ []), doubled b'"' s ++ b'"' ∷ t) (ground arith)
    ∙ read-quoted b'"' in_double_quote (λ c k st. refl) done t apart s (current ++ b'"' ∷ [])
    ∙ regroup t done current (b'"' ∷ []) (doubled b'"' s ++ b'"' ∷ [])
