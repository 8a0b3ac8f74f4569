-- ===== src/Server/Executor/Request.antt =====
-- `doRequest` of the executors: the request that a run sends, and how it ends.
use irwandhi_gitops_lab.Base.{
  ℕ, Bool, Option, none, some, List, [], ◌∷◌, ◌++◌, if◌then◌else◌, ◌==◌, is_empty, take,
}
use irwandhi_gitops_lab.Text.{Text, lit}
use irwandhi_gitops_lab.Server.Store.{JobRow}
use irwandhi_gitops_lab.Server.Executor.{Outcome}

pub record HttpRequest : Type 0 where
  pub method : Text
  pub url : Text
  pub body : Option Text
  pub headers : List (Text × Text)
  pub timeout_seconds : ℕ

-- What becomes of a request: it cannot be built; it is sent and fails, and its error is
-- `context.Canceled` or not; or a response comes, with its status and the bytes of its body that
-- can be read.
pub data Reply : Type 0 where
  unbuilt : (message : Text) → Reply
  unsent : (message : Text) (canceled : Bool) → Reply
  answered : (status : ℕ) (body : Text) → Reply

-- net/http, `strings.ToUpper`, and encoding/json on an object of texts.
pub record Http : Type 0 where
  pub to_upper : Text → Text
  pub parse_headers : Text → Option (List (Text × Text))
  pub send : HttpRequest → Reply

unfoldable pub timeout_of : ℕ → ℕ
timeout_of timeout_seconds = if timeout_seconds == 0 then 30 else timeout_seconds

unfoldable pub body_of : Option Text → Option Text
body_of none = none
body_of (some body) = if is_empty body then none else some body

unfoldable pub headers_of : Http → Text → List (Text × Text)
headers_of http [] = []
headers_of http (c ∷ headers) = elim (http.parse_headers (c ∷ headers)) [
  | none ↦ []
  | some entries ↦ entries
]

unfoldable pub request_of : Http → JobRow → HttpRequest
unfolding timeout_of body_of headers_of
request_of http job = record {
  method = http.to_upper job.method;
  url = job.url;
  body = body_of job.body;
  headers = headers_of http job.headers;
  timeout_seconds = timeout_of job.timeout_seconds;
}

-- The bytes of a response that are kept.
abbrev pub body_limit : ℕ
body_limit = 10000

unfoldable pub outcome_of : Reply → Outcome
outcome_of (Reply.unbuilt message) = Outcome.failed (lit "build request: " ++ message) Bool.false
outcome_of (Reply.unsent message canceled) =
    Outcome.failed (lit "request failed: " ++ message) canceled
outcome_of (Reply.answered status body) = Outcome.responded status (take body_limit body)

unfoldable pub do_request : Http → JobRow → Outcome
unfolding request_of outcome_of
do_request http job = outcome_of (http.send (request_of http job))
