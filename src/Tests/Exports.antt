-- ===== src/Tests/Exports.antt =====
-- The export at concrete inputs.
use irwandhi_gitops_lab.Base.{◌≡◌, refl, none, some, [], ◌∷◌, ◌++◌, map, drop, All}
use irwandhi_gitops_lab.Text.{Text, lit, eq_text, read_decimal, read_from}
use irwandhi_gitops_lab.Server.Store.{find, order_by}
use irwandhi_gitops_lab.Server.Answer.{ok}
use irwandhi_gitops_lab.Server.Jobs.{apply_defaults, inserted}
use irwandhi_gitops_lab.Server.Executor.{begin}
use irwandhi_gitops_lab.Server.Query.{atoi}
use irwandhi_gitops_lab.Server.Reports.Timeline.{in_window}
use irwandhi_gitops_lab.Server.Executions.{Execution, Reading, select, joined, of_job}
use irwandhi_gitops_lab.Server.Reports.Csv.{
  Times, has_special, csv_line, csv_columns, csv_rows, positive_days, report_csv,
}
use irwandhi_gitops_lab.Server.Reports.Reader.{begin_row, read_rows, read_csv, has_quote, NoQuote}
use irwandhi_gitops_lab.Server.Reports.Export.{
  IsPlain, IsReadable, values, read-report_csv, read-csv_line-torn,
}
use irwandhi_gitops_lab.Tests.Services.{table}
use irwandhi_gitops_lab.Tests.Queries.{more}

-- All times are written alike.
abbrev noon : Times
noon = record {
  rfc3339 = λ t. lit "1970-01-01T12:00:00Z";
  timestamp_text = λ t. lit "1970-01-01 12:00:00";
}

noon-IsPlain : IsPlain noon
unfolding has_special has_quote lit
noon-IsPlain = record { rfc3339_plain = λ t. refl; timestamp_plain = λ t. refl }

abbrev shown_row : Execution
shown_row = record {
  id = lit "e2";
  job_id = lit "j2";
  job_name = lit "nightly";
  status = lit "failure";
  triggered_by = lit "schedule";
  started_at = 3000;
  completed_at = some 4500;
  duration_ms = some 1500;
  response_status = none;
  response_body = none;
  error_message = some (lit "request failed: timeout, 30 s");
}

rows-IsReadable : All IsReadable (csv_rows noon (lit "bob") (lit "7") [] 5000 table more)
unfolding csv_rows select order_by in_window atoi read_decimal read_from positive_days joined find
    begin inserted lit eq_text of_job has_special has_quote apply_defaults
rows-IsReadable = (
  record {
    id_plain = refl;
    job_name_plain = refl;
    error_plain = refl;
    status_plain = refl;
    triggered_by_plain = refl;
  },
  tt,
)

read-report_csv_example :
    (text : Text) × (report_csv noon (lit "bob") (lit "7") [] 5000 Reading.whole table more
      ≡ ok 200 text)
    × (read_csv text
        ≡ csv_columns
          ∷ map (values noon noon-IsPlain) (csv_rows noon (lit "bob") (lit "7") [] 5000 table more))
read-report_csv_example =
    read-report_csv noon noon-IsPlain (lit "bob") (lit "7") [] 5000 table more rows-IsReadable

torn_name : lit "night\",\"ly" ≡ lit "night" ++ b'"' ∷ b',' ∷ b'"' ∷ lit "ly"
unfolding lit
torn_name = refl

night-NoQuote : NoQuote (lit "night") × NoQuote (lit "ly")
unfolding lit has_quote
night-NoQuote = (refl, refl)

night-IsReadable : IsReadable (record shown_row { job_name = lit "night" })
unfolding has_special has_quote lit
night-IsReadable = record {
  id_plain = refl;
  job_name_plain = refl;
  error_plain = refl;
  status_plain = refl;
  triggered_by_plain = refl;
}

read-csv_line-torn_example :
    read_rows begin_row (csv_line noon (record shown_row { job_name = lit "night\",\"ly" }) ++ [])
    ≡ (lit "e2" ∷ lit "night" ∷ lit "ly" ∷ drop 2 (values noon noon-IsPlain shown_row))
      ∷ read_rows begin_row []
read-csv_line-torn_example =
    read-csv_line-torn noon noon-IsPlain (record shown_row { job_name = lit "night\",\"ly" })
      (lit "night") (lit "ly") [] torn_name night-NoQuote.0 night-NoQuote.1 night-IsReadable
