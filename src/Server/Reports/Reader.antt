-- ===== src/Server/Reports/Reader.antt =====
-- A reader of comma-separated values, by which the export is judged.
use irwandhi_gitops_lab.Base.{
  ℕ, ◌≡◌, Bool, false, ◌||◌, Option, none, some, List, [], ◌∷◌, ◌++◌, if◌then◌else◌, ◌==◌,
}
use irwandhi_gitops_lab.Text.{Text}

-- A reader after RFC 4180: where it stands in a field, the field and the row read so far.
pub data Place : Type 0 where
  at_start bare quoted closed : Place

pub record Reader : Type 0 where
  pub place : Place
  pub field : Text
  pub row : List Text

abbrev pub begin_row : Reader
begin_row = record { place = at_start; field = []; row = [] }

abbrev pub grow : Reader → Place → ℕ → Reader
grow r place c = record r { place = place; field = r.field ++ c ∷ [] }

-- Outside of quotes a comma ends a field and a line feed a row.
abbrev pub outside : Reader → Place → ℕ → Reader × Option (List Text)
outside r place c =
    if c == b','
    then (record { place = at_start; field = []; row = r.row ++ r.field ∷ [] }, none)
    else if c == b'\n'
    then (begin_row, some (r.row ++ r.field ∷ []))
    else (grow r place c, none)

-- A quote opens at the start of a field, and closes; a quote behind one that closes stands for itself.
unfoldable pub read_at : Place → Reader → ℕ → Reader × Option (List Text)
read_at at_start r c = if c == b'"' then (record r { place = quoted }, none) else outside r bare c
read_at bare r c = outside r bare c
read_at quoted r c =
    if c == b'"' then (record r { place = closed }, none) else (grow r quoted c, none)
read_at closed r c = if c == b'"' then (grow r quoted c, none) else outside r bare c

abbrev pub emit : Option (List Text) → List (List Text) → List (List Text)
emit none rows = rows
emit (some row) rows = row ∷ rows

-- The rows of a text whose lines all end.
unfoldable pub read_rows : Reader → Text → List (List Text)
unfolding read_at
read_rows r [] = []
read_rows r (c ∷ s) = let (r', row) = read_at r.place r c in emit row (read_rows r' s)

unfoldable pub read_csv : Text → List (List Text)
unfolding read_rows
read_csv s = read_rows begin_row s

unfoldable pub has_quote : Text → Bool
has_quote [] = false
has_quote (c ∷ s) = c == b'"' || has_quote s

-- The reader in a place, and in a row.
abbrev pub within : Place → Text → List Text → Reader
within place field row = record { place = place; field = field; row = row }

abbrev pub NoQuote : Text → Type 0
NoQuote f = has_quote f ≡ false
