-- ===== src/Server/Routes/Calls.antt =====
-- The client's requests (apps/cronpilot-frontend/src/api) at the API's routes.
use mathlib.Core.Path.{subst}
use irwandhi_gitops_lab.Base.{
  ℕ, ◌≡◌, refl, ap, ◌∙◌, false, ◌&&◌, Option, none, some, List, [], ◌∷◌, ◌++◌, All, filter, map,
}
use irwandhi_gitops_lab.Text.{Text, lit, eq_text}
use irwandhi_gitops_lab.Json.{Json}
use irwandhi_gitops_lab.Api.{Method, Request, base_url, sign}
use irwandhi_gitops_lab.Api.Auth as Auth
use irwandhi_gitops_lab.Api.Jobs as Jobs
use irwandhi_gitops_lab.Api.Executions as Executions
use irwandhi_gitops_lab.Api.Report as Report
use irwandhi_gitops_lab.Api.Admin as Admin
use irwandhi_gitops_lab.Server.Middleware.{Claims}
use irwandhi_gitops_lab.Server.Middleware.Tokens.{admitted, sign-admitted}
use irwandhi_gitops_lab.Server.Routes.{
  Guard, Handler, Route, routes, route, two, of_id, segments_from, segments, fits, eq_method,
  serves, Mux, guarded, serve, is_static,
}
use irwandhi_gitops_lab.Server.Routes.Guards.{guard_of, All-Memᴰ, IsGuarded, routes-IsGuarded}
use irwandhi_gitops_lab.Server.Routes.Requests.{
  IsSegment, segments_from-last, segments_from-inner, plain_calls, calls_on, acts_on,
}

-- The routes of a method for a path in segments, and their handlers.
serving : Method → List Text → List Route
serving method ss = filter (λ r. eq_method r.method method && fits r.pattern ss) routes

handlers : Method → List Text → List Handler
unfolding serving
handlers method ss = map (λ (r : Route). r.handler) (serving method ss)

filter-serves :
    (method : Method) (url : Text) (ss : List Text)
    → segments url ≡ ss
    → filter (serves method url) routes ≡ serving method ss
unfolding serves serving
filter-serves method url ss e =
    ap (λ ts. filter (λ r. eq_method r.method method && fits r.pattern ts) routes) e

single :
    (rs : List Route) {h : Handler}
    → map (λ (r : Route). r.handler) rs ≡ h ∷ []
    → (r : Route) × (rs ≡ r ∷ []) × (r.handler ≡ h)
single [] e = cc
single (r ∷ []) e = (r, refl, cc)
single (r ∷ q ∷ rs) e = cc

module _ (mux : Mux) (parse : Text → Option Claims) where
  -- A request of the client is handed to a handler behind its guard, with what the gate makes of the
  -- session's token.
  abbrev pub Lands : Request × Handler → Type 0
  Lands c =
      (token : Option Text)
      → serve mux parse c.0.method (base_url ++ c.0.url) (sign token c.0).authorization
        ≡ guarded (guard_of c.1) c.1 (admitted parse token)

  dispatched-Lands :
      (r : Request) (rt : Route)
      → r.authorization ≡ none
      → mux.dispatch routes r.method (base_url ++ r.url) ≡ some rt
      → Lands (r, rt.handler)
  unfolding serve
  dispatched-Lands r rt bare taken token =
      let known = (mux.only routes r.method (base_url ++ r.url) rt taken).0 in
      let same = All-Memᴰ IsGuarded routes routes-IsGuarded known in
      rw (taken, serve, sign-admitted parse token r bare, same) refl

  lands :
      (r : Request) (h : Handler) (ss : List Text)
      → r.authorization ≡ none
      → segments (base_url ++ r.url) ≡ ss
      → handlers r.method ss ≡ h ∷ []
      → Lands (r, h)
  unfolding handlers
  lands r h ss bare split only =
      let (rt, alone, named) = single (serving r.method ss) only in
      let taken =
        mux.found routes r.method (base_url ++ r.url) rt
          (filter-serves r.method (base_url ++ r.url) ss split ∙ alone) in
      subst (λ k. Lands (r, k)) named (dispatched-Lands r rt bare taken)

  plain-Lands :
      (email password next : Text) (body : Json) (chosen : Option Text) (limit days : Option ℕ)
      (encode : Text → Text) (job_id : Text)
      → All Lands (plain_calls email password next body chosen limit days encode job_id)
  unfolding segments segments_from handlers fits eq_method routes filter lit eq_text Auth.login
      Auth.register Auth.change_password Jobs.get_jobs Jobs.create_job Executions.get_executions
      Report.get_report_summary Report.get_report_timeline Report.get_report_jobs Report.csv_request
      Admin.get_users Admin.create_user Admin.get_all_jobs Admin.create_job
  plain-Lands email password next body chosen limit days encode job_id = (
    lands _ _ _ refl refl refl,
    (
      lands _ _ _ refl refl refl,
      (
        lands _ _ _ refl refl refl,
        (
          lands _ _ _ refl refl refl,
          (
            lands _ _ _ refl refl refl,
            (
              lands _ _ _ refl refl refl,
              (
                lands _ _ _ refl refl refl,
                (
                  lands _ _ _ refl refl refl,
                  (
                    lands _ _ _ refl refl refl,
                    (
                      lands _ _ _ refl refl refl,
                      (
                        lands _ _ _ refl refl refl,
                        (
                          lands _ _ _ refl refl refl,
                          (lands _ _ _ refl refl refl, (lands _ _ _ refl refl refl, tt)),
                        ),
                      ),
                    ),
                  ),
                ),
              ),
            ),
          ),
        ),
      ),
    ),
  )

  on-Lands :
      (c : ℕ) (s : Text) (body : Json) → IsSegment (c ∷ s) → All Lands (calls_on (c ∷ s) body)
  unfolding segments handlers fits eq_method routes filter lit eq_text Jobs.get_job Jobs.update_job
      Jobs.delete_job Admin.update_user Admin.delete_user Admin.update_job Admin.delete_job
  on-Lands c s body ok =
      let last = segments_from-last [] (c ∷ s) ok in
      (
        lands _ _ _ refl (ap (λ t. lit "api" ∷ lit "jobs" ∷ t) last) refl,
        (
          lands _ _ _ refl (ap (λ t. lit "api" ∷ lit "jobs" ∷ t) last) refl,
          (
            lands _ _ _ refl (ap (λ t. lit "api" ∷ lit "jobs" ∷ t) last) refl,
            (
              lands _ _ _ refl (ap (λ t. lit "api" ∷ lit "admin" ∷ lit "users" ∷ t) last) refl,
              (
                lands _ _ _ refl (ap (λ t. lit "api" ∷ lit "admin" ∷ lit "users" ∷ t) last) refl,
                (
                  lands _ _ _ refl (ap (λ t. lit "api" ∷ lit "admin" ∷ lit "jobs" ∷ t) last) refl,
                  (
                    lands _ _ _ refl (ap (λ t. lit "api" ∷ lit "admin" ∷ lit "jobs" ∷ t) last) refl,
                    tt,
                  ),
                ),
              ),
            ),
          ),
        ),
      )

  acts-Lands : (c : ℕ) (s : Text) → IsSegment (c ∷ s) → All Lands (acts_on (c ∷ s))
  unfolding segments segments_from handlers fits eq_method routes filter lit eq_text Jobs.pause_job
      Jobs.resume_job Jobs.trigger_job Admin.pause_job Admin.resume_job Admin.trigger_job
  acts-Lands c s ok = (
    lands _ _ _ refl
        (ap (λ t. lit "api" ∷ lit "jobs" ∷ t) (segments_from-inner [] (c ∷ s) (lit "pause") ok))
        refl,
    (
      lands _ _ _ refl
          (ap (λ t. lit "api" ∷ lit "jobs" ∷ t) (segments_from-inner [] (c ∷ s) (lit "resume") ok))
          refl,
      (
        lands _ _ _ refl
            (ap (λ t. lit "api" ∷ lit "jobs" ∷ t)
              (segments_from-inner [] (c ∷ s) (lit "trigger") ok))
            refl,
        (
          lands _ _ _ refl
              (ap (λ t. lit "api" ∷ lit "admin" ∷ lit "jobs" ∷ t)
                (segments_from-inner [] (c ∷ s) (lit "pause") ok))
              refl,
          (
            lands _ _ _ refl
                (ap (λ t. lit "api" ∷ lit "admin" ∷ lit "jobs" ∷ t)
                  (segments_from-inner [] (c ∷ s) (lit "resume") ok))
                refl,
            (
              lands _ _ _ refl
                  (ap (λ t. lit "api" ∷ lit "admin" ∷ lit "jobs" ∷ t)
                    (segments_from-inner [] (c ∷ s) (lit "trigger") ok))
                  refl,
              tt,
            ),
          ),
        ),
      ),
    ),
  )

  running-Lands : Lands (Executions.get_running_executions, Handler.list_running_executions)
  unfolding segments segments_from fits eq_method routes filter lit eq_text serving is_static
      Executions.get_running_executions
  running-Lands =
      let url = base_url ++ (Executions.get_running_executions).url in
      dispatched-Lands Executions.get_running_executions
        (route Guard.signed_in Method.get (two (lit "executions") (lit "running"))
          Handler.list_running_executions)
        refl
        (mux.static_first routes Method.get url _
          (route Guard.signed_in Method.get (of_id (lit "executions")) Handler.get_execution)
          (filter-serves Method.get url _ refl ∙ refl) refl refl)

  execution_handlers :
      (c : ℕ) (s : Text)
      → eq_text (lit "running") (c ∷ s) ≡ false
      → handlers Method.get (lit "api" ∷ lit "executions" ∷ (c ∷ s) ∷ [])
        ≡ Handler.get_execution ∷ []
  unfolding handlers fits eq_method routes filter lit eq_text
  execution_handlers c s other = rw other refl

  execution-Lands :
      (c : ℕ) (s : Text)
      → IsSegment (c ∷ s)
      → eq_text (lit "running") (c ∷ s) ≡ false
      → Lands (Executions.get_execution (c ∷ s), Handler.get_execution)
  unfolding segments lit Executions.get_execution
  execution-Lands c s ok other =
      lands (Executions.get_execution (c ∷ s)) Handler.get_execution
        (lit "api" ∷ lit "executions" ∷ (c ∷ s) ∷ []) refl
        (ap (λ t. lit "api" ∷ lit "executions" ∷ t) (segments_from-last [] (c ∷ s) ok))
        (execution_handlers c s other)

  -- Each request that the client makes lands at its handler behind that handler's guard, whatever the
  -- session's token: those of a path without parameters; those about one job, account or execution,
  -- where the id is of lower-case letters, digits and "-", as UUIDs are, is not empty and, for an
  -- execution, is not "running".
  pub client_calls-Land :
      (email password next job_id : Text) (body : Json) (chosen : Option Text)
      (limit days : Option ℕ) (encode : Text → Text) (c : ℕ) (s : Text)
      → IsSegment (c ∷ s)
      → eq_text (lit "running") (c ∷ s) ≡ false
      → All Lands (plain_calls email password next body chosen limit days encode job_id)
        × All Lands (calls_on (c ∷ s) body)
        × All Lands (acts_on (c ∷ s))
        × Lands (Executions.get_running_executions, Handler.list_running_executions)
        × Lands (Executions.get_execution (c ∷ s), Handler.get_execution)
  client_calls-Land email password next job_id body chosen limit days encode c s ok other = (
    plain-Lands email password next body chosen limit days encode job_id,
    on-Lands c s body ok,
    acts-Lands c s ok,
    running-Lands,
    execution-Lands c s ok other,
  )
