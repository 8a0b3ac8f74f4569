-- ===== src/Server/Reports/Export.antt =====
-- The export of executions, read back.
use irwandhi_gitops_lab.Base.{
  ℕ, ◌≡◌, refl, ap, ◌∙◌, true, false, Option, none, some, List, [], ◌∷◌, ◌++◌, arith, map, All,
  append_assoc, drop,
}
use irwandhi_gitops_lab.Text.{Text, lit, decimal, IsDigit, decimal-IsDigit}
use irwandhi_gitops_lab.Server.Answer.{ok}
use irwandhi_gitops_lab.Server.Jobs.{Jobs}
use irwandhi_gitops_lab.Server.Executor.{Executions}
use irwandhi_gitops_lab.Server.Executions.{Execution, Reading}
use irwandhi_gitops_lab.Server.Reports.Csv.{
  Times, has_special, csv_esc, text_of, line, csv_line, csv_lines, csv_columns, csv_rows,
  report_csv,
}
use irwandhi_gitops_lab.Server.Reports.Reader.{begin_row, read_rows, read_csv, has_quote, NoQuote}
use irwandhi_gitops_lab.Server.Reports.Fields.{
  read-line, read-csv_esc, read-csv_esc-torn, csv_esc-plain, NoQuote-plain,
}

digits-NoQuote : (s : Text) → All IsDigit s → NoQuote s
unfolding has_quote
digits-NoQuote [] h = refl
digits-NoQuote (c ∷ s) (h, hs) = ground (arith, digits-NoQuote s hs)

decimal-NoQuote : (n : Option ℕ) → NoQuote (text_of decimal n)
unfolding has_quote
decimal-NoQuote none = refl
decimal-NoQuote (some n) = digits-NoQuote (decimal n) (decimal-IsDigit n)

-- Both ways to write a time use no quote, and the first no comma or end of line either.
pub record IsPlain (times : Times) : Type 0 where
  pub rfc3339_plain : (t : ℕ) → has_special (times.rfc3339 t) ≡ false
  pub timestamp_plain : (t : ℕ) → NoQuote (times.timestamp_text t)

timestamp-NoQuote :
    (times : Times) → IsPlain times → (t : Option ℕ) → NoQuote (text_of times.timestamp_text t)
unfolding has_quote
timestamp-NoQuote times plain none = refl
timestamp-NoQuote times plain (some t) = plain.timestamp_plain t

-- The free texts hold no quote, and the others nothing that would have to be quoted.
pub record IsReadable (x : Execution) : Type 0 where
  pub id_plain : NoQuote x.id
  pub job_name_plain : NoQuote x.job_name
  pub error_plain : NoQuote (text_of (λ s. s) x.error_message)
  pub status_plain : has_special x.status ≡ false
  pub triggered_by_plain : has_special x.triggered_by ≡ false

module _ (times : Times) (plain : IsPlain times) where
  -- The values of an execution, one for each column.
  abbrev pub values : Execution → List Text
  values x =
      x.id
      ∷ x.job_name
      ∷ x.status
      ∷ x.triggered_by
      ∷ times.rfc3339 x.started_at
      ∷ text_of times.timestamp_text x.completed_at
      ∷ text_of decimal x.duration_ms
      ∷ text_of decimal x.response_status
      ∷ text_of (λ s. s) x.error_message
      ∷ []

  csv_line-values :
      (x : Execution) → IsReadable x → csv_line times x ≡ line (map csv_esc (values x))
  unfolding csv_line
  csv_line-values x h =
      rw
        (
          csv_esc-plain x.status h.status_plain,
          csv_esc-plain x.triggered_by h.triggered_by_plain,
          csv_esc-plain (times.rfc3339 x.started_at) (plain.rfc3339_plain x.started_at),
        )
        refl

  values-NoQuote : (x : Execution) → IsReadable x → All NoQuote (values x)
  values-NoQuote x h = (
    h.id_plain,
    (
      h.job_name_plain,
      (
        NoQuote-plain x.status h.status_plain,
        (
          NoQuote-plain x.triggered_by h.triggered_by_plain,
          (
            NoQuote-plain (times.rfc3339 x.started_at) (plain.rfc3339_plain x.started_at),
            (
              timestamp-NoQuote times plain x.completed_at,
              (
                decimal-NoQuote x.duration_ms,
                (decimal-NoQuote x.response_status, (h.error_plain, tt)),
              ),
            ),
          ),
        ),
      ),
    ),
  )

  read-csv_lines :
      (xs : List Execution)
      → All IsReadable xs
      → read_rows begin_row (csv_lines times xs) ≡ map values xs
  unfolding csv_lines
  read-csv_lines [] h = unfold read_rows in refl
  read-csv_lines (x ∷ xs) (h, hs) = rw (csv_line-values x h) (
      read-line x.id _ [] (csv_lines times xs) (values-NoQuote x h)
      ∙ ap (λ (rows : List (List Text)). values x ∷ rows) (read-csv_lines xs hs))

  columns-NoQuote : All NoQuote csv_columns
  unfolding has_quote lit
  columns-NoQuote = (refl, (refl, (refl, (refl, (refl, (refl, (refl, (refl, (refl, tt)))))))))

  header-read :
      (t : Text) → read_rows begin_row (line csv_columns ++ t) ≡ csv_columns ∷ read_rows begin_row t
  unfolding line lit csv_esc
  header-read t = read-line (lit "execution_id") _ [] t columns-NoQuote

  -- Where every row of the query can be read back, and they are read to the end, a reader of the
  -- export finds the header and then exactly the values of the rows, in their order.
  pub read-report_csv :
      (uid days job_id : Text) (now : ℕ) (jobs : Jobs) (es : Executions)
      → All IsReadable (csv_rows times uid days job_id now jobs es)
      → (text : Text) × (report_csv times uid days job_id now Reading.whole jobs es ≡ ok 200 text)
        × (read_csv text ≡ csv_columns ∷ map values (csv_rows times uid days job_id now jobs es))
  unfolding report_csv read_csv
  read-report_csv uid days job_id now jobs es h = (
    _,
    refl,
    header-read (csv_lines times (csv_rows times uid days job_id now jobs es))
        ∙ ap (λ (rows : List (List Text)). csv_columns ∷ rows)
            (read-csv_lines (csv_rows times uid days job_id now jobs es) h),
  )

  csv_line-split :
      (x : Execution)
      → has_special x.status ≡ false
      → has_special x.triggered_by ≡ false
      → csv_line times x
        ≡ csv_esc x.id
          ++ b',' ∷ (csv_esc x.job_name ++ b',' ∷ line (map csv_esc (drop 2 (values x))))
  unfolding csv_line line
  csv_line-split x status triggered_by =
      rw
        (
          csv_esc-plain x.status status,
          csv_esc-plain x.triggered_by triggered_by,
          csv_esc-plain (times.rfc3339 x.started_at) (plain.rfc3339_plain x.started_at),
        )
        refl

  -- A job whose name holds a quote, a comma and a quote puts one value too many into the lines of its
  -- executions: the text before them and the text behind them are read as two, and the values of the
  -- later columns stand one column too far.
  pub read-csv_line-torn :
      (x : Execution) (a b t : Text)
      → x.job_name ≡ a ++ b'"' ∷ b',' ∷ b'"' ∷ b
      → NoQuote a
      → NoQuote b
      → IsReadable (record x { job_name = a })
      → read_rows begin_row (csv_line times x ++ t)
        ≡ (x.id ∷ a ∷ b ∷ drop 2 (values x)) ∷ read_rows begin_row t
  read-csv_line-torn x a b t named h k readable =
      let later = line (map csv_esc (drop 2 (values x))) in
      let good = values-NoQuote (record x { job_name = a }) readable in
      rw (csv_line-split x readable.status_plain readable.triggered_by_plain, named)
        (ap (read_rows begin_row) (append_assoc (csv_esc x.id) _ t)
          ∙ read-csv_esc true x.id [] _ readable.id_plain
          ∙ ap (read_rows (record begin_row { row = x.id ∷ [] })) (append_assoc _ (b',' ∷ later) t)
          ∙ read-csv_esc-torn true a b (x.id ∷ []) (later ++ t) h k
          ∙ read-line x.status _ (x.id ∷ a ∷ b ∷ []) t good.1.1)
