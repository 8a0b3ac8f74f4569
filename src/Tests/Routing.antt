-- ===== src/Tests/Routing.antt =====
-- Requests at the API's routes, with a router that tries the routes without parameters first.
use mathlib.Core.List.{Memᴰ}
use irwandhi_gitops_lab.Base.{
  ◌≡◌, refl, Bool, true, false, Option, none, some, List, [], ◌∷◌, arith, filter, mem-filter, inl,
  inr, if◌then◌else◌, All, Bool-cases,
}
use irwandhi_gitops_lab.Text.{Text, lit, eq_text, starts_with}
use irwandhi_gitops_lab.Json.{Json}
use irwandhi_gitops_lab.Api.{Method}
use irwandhi_gitops_lab.Api.Executions as Executions
use irwandhi_gitops_lab.Server.Store.{find}
use irwandhi_gitops_lab.Server.Middleware.{Claims, require_auth, require_admin}
use irwandhi_gitops_lab.Server.Routes.{
  Handler, Route, routes, segments, segments_from, fits, eq_method, serves, is_static, Mux, Reached,
  enter, guarded, serve,
}
use irwandhi_gitops_lab.Server.Routes.Guards.{guard_of, Admitted, serve-Admitted}
use irwandhi_gitops_lab.Server.Routes.Requests.{plain_calls, calls_on, acts_on}
use irwandhi_gitops_lab.Server.Routes.Calls.{Lands, client_calls-Land}

or_first : Option Route → List Route → Option Route
or_first (some r) rs = some r
or_first none [] = none
or_first none (r ∷ rs) = some r

pick : List Route → Option Route
unfolding or_first
pick rs = or_first (find (λ r. is_static r.pattern) rs) rs

find-Memᴰ : (test : Route → Bool) (rs : List Route) {r : Route} → find test rs ≡ some r → Memᴰ r rs
unfolding find
find-Memᴰ test [] e = cc
find-Memᴰ test (q ∷ rs) {r} e = elim (Bool-cases (test q)) [
  | inl hit ↦ Memᴰ.head (ground arith)
  | inr miss ↦ Memᴰ.tail (find-Memᴰ test rs (rw (miss, find) at e))
]

or_first-Memᴰ :
    (o : Option Route) (rs : List Route) (r : Route)
    → ((q : Route) → o ≡ some q → Memᴰ q rs)
    → or_first o rs ≡ some r
    → Memᴰ r rs
unfolding or_first
or_first-Memᴰ (some q) rs r h e = h r e
or_first-Memᴰ none [] r h e = cc
or_first-Memᴰ none (q ∷ rs) r h e = Memᴰ.head (cc)

picked : List Route → Method → Text → Option Route
unfolding pick
picked rs method url = pick (filter (serves method url) rs)

picked-only :
    (rs : List Route) (method : Method) (url : Text) (r : Route)
    → picked rs method url ≡ some r
    → Memᴰ r rs × (serves method url r ≡ true)
unfolding picked
picked-only rs method url r e =
    let fitting = filter (serves method url) rs in
    (mem-filter (serves method url) r rs).0 (
      or_first-Memᴰ (find (λ q. is_static q.pattern) fitting) fitting r
        (λ q h. find-Memᴰ (λ q. is_static q.pattern) fitting h) e)

picked-found :
    (rs : List Route) (method : Method) (url : Text) (r : Route)
    → filter (serves method url) rs ≡ r ∷ []
    → picked rs method url ≡ some r
unfolding picked find or_first
picked-found rs method url r e = rw e (elim (Bool-cases (is_static r.pattern)) [
  | inl static ↦ rw static refl
  | inr other ↦ rw other refl
])

picked-static_first :
    (rs : List Route) (method : Method) (url : Text) (r q : Route)
    → filter (serves method url) rs ≡ r ∷ q ∷ []
    → is_static r.pattern ≡ true
    → is_static q.pattern ≡ false
    → picked rs method url ≡ some r
unfolding picked find or_first
picked-static_first rs method url r q e static other = rw (e, static) refl

abbrev mux : Mux
mux = record {
  dispatch = picked;
  only = picked-only;
  found = picked-found;
  static_first = picked-static_first;
}

-- The one token that is valid is the administrator's.
abbrev ada : Claims
ada = record { user_id = lit "ada"; email = lit "ada@acme.com"; role = lit "admin" }

parse : Text → Option Claims
parse s = if eq_text s (lit "good") then some ada else none

abbrev header : Option Text
header = some (lit "Bearer good")

ada_lists :
    serve mux parse Method.get (lit "/api/admin/users") header
    ≡ Reached.handled Handler.admin_list_users (some ada)
unfolding serve picked find is_static or_first serves fits segments segments_from eq_method filter
    routes lit eq_text require_auth require_admin starts_with parse guarded enter
ada_lists = refl

serve-Admitted_example :
    Admitted (guard_of Handler.admin_list_users) (require_auth parse header) (some ada)
serve-Admitted_example =
    serve-Admitted mux parse Method.get (lit "/api/admin/users") header Handler.admin_list_users
      (some ada) ada_lists

not_running : eq_text (lit "running") (b'j' ∷ b'1' ∷ []) ≡ false
unfolding lit eq_text
not_running = refl

client_calls-Land_example :
    All (Lands mux parse) (
      plain_calls
        (lit "a@acme.com")
        (lit "secret1")
        (lit "secret2")
        Json.null
        none
        none
        none
        (λ s. s)
        (lit "j1"))
    × All (Lands mux parse) (calls_on (b'j' ∷ b'1' ∷ []) Json.null)
    × All (Lands mux parse) (acts_on (b'j' ∷ b'1' ∷ []))
    × Lands mux parse (Executions.get_running_executions, Handler.list_running_executions)
    × Lands mux parse (Executions.get_execution (b'j' ∷ b'1' ∷ []), Handler.get_execution)
client_calls-Land_example =
    client_calls-Land mux parse (lit "a@acme.com") (lit "secret1") (lit "secret2") (lit "j1")
      Json.null none none none (λ s. s) b'j' (b'1' ∷ []) (refl, (refl, tt)) not_running
