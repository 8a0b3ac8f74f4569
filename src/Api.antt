-- ===== src/Api.antt =====
-- apps/cronpilot-frontend/src/api/: the requests that the client can make, and the interceptor that
-- signs them.
pub mod Auth
pub mod Jobs
pub mod Executions
pub mod Report
pub mod Admin
use irwandhi_gitops_lab.Base.{Option, none, some, ◌++◌, if◌then◌else◌}
use irwandhi_gitops_lab.Text.{Text, lit, truthy}
use irwandhi_gitops_lab.Json.{Json, Object}

pub data Method : Type 0 where
  get post put patch delete : Method

-- What is handed to axios: `params` become the query, `body` is sent as JSON.
pub record Request : Type 0 where
  pub method : Method
  pub url : Text
  pub params : Object
  pub body : Option Json
  pub authorization : Option Text

abbrev pub base_url : Text
base_url = lit "/api"

-- `client.get(url)`, and the same without a body for the other methods.
abbrev pub request : Method → Text → Request
request method url = record {
  method = method;
  url = url;
  params = Object.empty;
  body = none;
  authorization = none;
}

-- `client.post(url, body)`, `client.put(url, body)` and `client.patch(url, body)`.
abbrev pub send : Method → Text → Json → Request
send method url body = record (request method url) { body = some body }

-- `if (token) config.headers.Authorization = …`, where `token` is what the storage holds.
unfoldable pub sign : Option Text → Request → Request
sign none config = config
sign (some token) config =
    if truthy token then record config { authorization = some (lit "Bearer " ++ token) } else config
