-- ===== src/Server/Reports/Fields.antt =====
-- What a reader of comma-separated values makes of the export.
use irwandhi_gitops_lab.Base.{
  ℕ, ◌≡◌, refl, ap, ◌∙◌, Bool, true, false, List, [], ◌∷◌, ◌++◌, arith, ◌==◌, map, All,
  append_assoc, append-nil, inl, inr, Bool-cases,
}
use irwandhi_gitops_lab.Text.{Text}
use irwandhi_gitops_lab.Server.Reports.Csv.{is_special, has_special, csv_esc, line}
use irwandhi_gitops_lab.Server.Reports.Reader.{
  at_start, bare, quoted, begin_row, read_rows, has_quote, within, NoQuote,
}

read-bare :
    (f field t : Text) (row : List Text)
    → has_special f ≡ false
    → read_rows (within bare field row) (f ++ t) ≡ read_rows (within bare (field ++ f) row) t
unfolding read_rows has_special is_special
read-bare [] field t row h = rw append-nil refl
read-bare (c ∷ f) field t row h =
    let no_comma : (c == b',') ≡ false = ground arith in
    let no_feed : (c == b'\n') ≡ false = ground arith in
    let plain : has_special f ≡ false = ground arith in
    rw (no_comma, no_feed)
      (read-bare f (field ++ c ∷ []) t row plain
        ∙ ap (λ g. read_rows (within bare g row) t) (append_assoc field (c ∷ []) f))

read-quoted :
    (f field t : Text) (row : List Text)
    → has_quote f ≡ false
    → read_rows (within quoted field row) (f ++ t) ≡ read_rows (within quoted (field ++ f) row) t
unfolding read_rows has_quote
read-quoted [] field t row h = rw append-nil refl
read-quoted (c ∷ f) field t row h =
    let no_quote : (c == b'"') ≡ false = ground arith in
    let rest : has_quote f ≡ false = ground arith in
    rw no_quote (
      read-quoted f (field ++ c ∷ []) t row rest
      ∙ ap (λ g. read_rows (within quoted g row) t) (append_assoc field (c ∷ []) f))

-- What ends a field: a comma, or a line feed where the field is the last.
abbrev mark : Bool → ℕ
mark true = b','
mark false = b'\n'

abbrev ended : Bool → Text → List Text → Text → List (List Text)
ended true f row t = read_rows (within at_start [] (row ++ f ∷ [])) t
ended false f row t = (row ++ f ∷ []) ∷ read_rows begin_row t

read_start-mark :
    (more : Bool) (f : Text) (row : List Text) (t : Text)
    → read_rows (within at_start f row) (mark more ∷ t) ≡ ended more f row t
unfolding read_rows
read_start-mark true f row t = refl
read_start-mark false f row t = refl

read_bare-mark :
    (more : Bool) (f : Text) (row : List Text) (t : Text)
    → read_rows (within bare f row) (mark more ∷ t) ≡ ended more f row t
unfolding read_rows
read_bare-mark true f row t = refl
read_bare-mark false f row t = refl

read_quoted-mark :
    (more : Bool) (f : Text) (row : List Text) (t : Text)
    → read_rows (within quoted f row) (b'"' ∷ mark more ∷ t) ≡ ended more f row t
unfolding read_rows
read_quoted-mark true f row t = refl
read_quoted-mark false f row t = refl

read_first :
    (c : ℕ) (s t : Text) (row : List Text)
    → has_special (c ∷ s) ≡ false
    → read_rows (within at_start [] row) (c ∷ t) ≡ read_rows (within bare (c ∷ []) row) t
unfolding read_rows has_special is_special
read_first c s t row h =
    let no_quote : (c == b'"') ≡ false = ground arith in
    let no_comma : (c == b',') ≡ false = ground arith in
    let no_feed : (c == b'\n') ≡ false = ground arith in rw (no_quote, no_comma, no_feed) refl

open_quote :
    (row : List Text) (t : Text)
    → read_rows (within at_start [] row) (b'"' ∷ t) ≡ read_rows (within quoted [] row) t
unfolding read_rows
open_quote row t = refl

has_special_tail : (c : ℕ) (s : Text) → has_special (c ∷ s) ≡ false → has_special s ≡ false
unfolding has_special
has_special_tail c s h = ground arith

-- A field that holds no quote is read as it is.
pub read-csv_esc :
    (more : Bool) (f : Text) (row : List Text) (t : Text)
    → has_quote f ≡ false
    → read_rows (within at_start [] row) (csv_esc f ++ mark more ∷ t) ≡ ended more f row t
unfolding csv_esc
read-csv_esc more [] row t h = read_start-mark more [] row t
read-csv_esc more (c ∷ s) row t h = elim (Bool-cases (has_special (c ∷ s))) [
  | inl special ↦
      rw (special, csv_esc)
        (open_quote row (((c ∷ s) ++ b'"' ∷ []) ++ mark more ∷ t)
          ∙ (ap (read_rows (within quoted [] row))
                (append_assoc (c ∷ s) (b'"' ∷ []) (mark more ∷ t))
              ∙ (read-quoted (c ∷ s) [] (b'"' ∷ mark more ∷ t) row h
                  ∙ read_quoted-mark more (c ∷ s) row t)))
  | inr plain ↦
      rw (plain, csv_esc)
        (read_first c s (s ++ mark more ∷ t) row plain
          ∙ (read-bare s (c ∷ []) (mark more ∷ t) row (has_special_tail c s plain)
              ∙ read_bare-mark more (c ∷ s) row t))
]

pub read-line :
    (f : Text) (fs : List Text) (row : List Text) (t : Text)
    → All NoQuote (f ∷ fs)
    → read_rows (within at_start [] row) (line (map csv_esc (f ∷ fs)) ++ t)
      ≡ (row ++ f ∷ fs) ∷ read_rows begin_row t
unfolding line
read-line f [] row t (h, _) =
    ap (read_rows (within at_start [] row)) (append_assoc (csv_esc f) (b'\n' ∷ []) t)
    ∙ read-csv_esc false f row t h
read-line f (g ∷ fs) row t (h, hs) =
    ap (read_rows (within at_start [] row))
      (append_assoc (csv_esc f) (b',' ∷ line (map csv_esc (g ∷ fs))) t)
    ∙ (read-csv_esc true f row (line (map csv_esc (g ∷ fs)) ++ t) h
        ∙ (read-line g fs (row ++ f ∷ []) t hs
            ∙ ap (λ (r : List Text). r ∷ read_rows begin_row t)
                (append_assoc row (f ∷ []) (g ∷ fs))))

pub csv_esc-plain : (s : Text) → has_special s ≡ false → csv_esc s ≡ s
unfolding csv_esc
csv_esc-plain [] h = refl
csv_esc-plain (c ∷ s) h = rw (h, csv_esc) refl

pub NoQuote-plain : (s : Text) → has_special s ≡ false → NoQuote s
unfolding has_quote has_special is_special
NoQuote-plain [] h = refl
NoQuote-plain (c ∷ s) h = ground (arith, NoQuote-plain s)

has_special-quote : (a b : Text) → has_special (a ++ b'"' ∷ b) ≡ true
unfolding has_special is_special
has_special-quote [] b = refl
has_special-quote (c ∷ a) b = ground (arith, has_special-quote a b)

csv_esc-special : (s : Text) → has_special s ≡ true → csv_esc s ≡ b'"' ∷ (s ++ b'"' ∷ [])
unfolding csv_esc has_special
csv_esc-special [] h = cc
csv_esc-special (c ∷ s) h = rw h refl

-- A field that holds a quote, a comma and a quote is read as two.
pub read-csv_esc-torn :
    (more : Bool) (a b : Text) (row : List Text) (t : Text)
    → NoQuote a
    → NoQuote b
    → read_rows (within at_start [] row) (csv_esc (a ++ b'"' ∷ b',' ∷ b'"' ∷ b) ++ mark more ∷ t)
      ≡ ended more b (row ++ a ∷ []) t
read-csv_esc-torn more a b row t h k =
    rw (csv_esc-special _ (has_special-quote a (b',' ∷ b'"' ∷ b))) (
      open_quote row (((a ++ b'"' ∷ b',' ∷ b'"' ∷ b) ++ b'"' ∷ []) ++ mark more ∷ t)
      ∙ ap (read_rows (within quoted [] row)) (
          append_assoc (a ++ b'"' ∷ b',' ∷ b'"' ∷ b) (b'"' ∷ []) (mark more ∷ t)
          ∙ append_assoc a (b'"' ∷ b',' ∷ b'"' ∷ b) (b'"' ∷ mark more ∷ t))
      ∙ read-quoted a [] (b'"' ∷ b',' ∷ b'"' ∷ (b ++ b'"' ∷ mark more ∷ t)) row h
      ∙ read_quoted-mark true a row (b'"' ∷ (b ++ b'"' ∷ mark more ∷ t))
      ∙ open_quote (row ++ a ∷ []) (b ++ b'"' ∷ mark more ∷ t)
      ∙ read-quoted b [] (b'"' ∷ mark more ∷ t) (row ++ a ∷ []) k
      ∙ read_quoted-mark more b (row ++ a ∷ []) t)
