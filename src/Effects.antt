-- ===== src/Effects.antt =====
-- What a handler asks of its surroundings, in order: the router, the query cache, the session, the
-- server. A failed request is an error of axios.
pub mod Perform
use irwandhi_gitops_lab.Base.{Option, none, some, List}
use irwandhi_gitops_lab.Text.{Text}
use irwandhi_gitops_lab.Json.{Json}
use irwandhi_gitops_lab.Session.{User}
use irwandhi_gitops_lab.Api.{Request}
use irwandhi_gitops_lab.Records.{is_set, text_or}

-- A query key of the cache.
abbrev pub Key : Type 0
Key = List Json

pub data Effect : Type 0 where
  call : Request → Effect
  invalidate : Key → Effect
  invalidate_all clear_queries : Effect
  navigate navigate_replace : Text → Effect
  go_back : Effect
  set_auth : Option Text → Option User → Effect
  clear_auth : Effect
  alert : Text → Effect

-- `err.response?.data?.error`, with `none` for undefined.
pub record ErrorBody : Type 0 where
  pub error : Option Text

pub record Response : Type 0 where
  pub body : Option ErrorBody

pub record Failure : Type 0 where
  pub response : Option Response

abbrev error_in : Option ErrorBody → Option Text
error_in none = none
error_in (some b) = b.error

abbrev body_in : Option Response → Option Text
body_in none = none
body_in (some r) = error_in r.body

unfoldable pub error_text : Failure → Option Text
error_text err = body_in err.response

-- `err.response?.data?.error || message`.
unfoldable pub error_or : Failure → Text → Text
unfolding error_text text_or
error_or err message = text_or (error_text err) message

-- `err.response?.data?.error ?? message`.
unfoldable pub error_nullish : Failure → Text → Text
unfolding error_text
error_nullish err message = elim (error_text err) [ none ↦ message | some s ↦ s ]

-- What `useMutation` is given, at one call of `mutate`: the request, and what follows its outcome.
pub record Mutation : Type 0 where
  pub request : Request
  pub on_success : List Effect
