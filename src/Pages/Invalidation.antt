-- ===== src/Pages/Invalidation.antt =====
-- Which queries the effects of a handler make stale.
use irwandhi_gitops_lab.Base.{
  Bool, true, false, ◌||◌, List, [], ◌∷◌, ◌++◌, ◌≡◌, ◌↔◌, ◌≢◌, inl, inr, refl, Option, none, some,
  Bool-cases,
}
use irwandhi_gitops_lab.Text.{Text, lit, ne_of_eq_text, eq_text}
use irwandhi_gitops_lab.Json.{Json}
use irwandhi_gitops_lab.Records.{Job}
use irwandhi_gitops_lab.Effects.{Key, Effect, Mutation}
use irwandhi_gitops_lab.Components.JobCard as Card
use irwandhi_gitops_lab.Pages.JobDetail as Detail

-- The query cache, which is a library: `invalidateQueries({ queryKey })` marks the queries whose
-- key begins with `queryKey`.
pub record QueryCache : Type 0 where
  pub covers : Key → Key → Bool
  pub covers_iff :
      (key query : Key) → (covers key query ≡ true) ↔ ((rest : Key) × (query ≡ key ++ rest))

abbrev key : Text → Json
key s = Json.str s

module _ (cache : QueryCache) where
  open cache use {covers, covers_iff}

  -- Whether the effects mark a query stale.
  unfoldable pub stale : List Effect → Key → Bool
  stale [] query = false
  stale (Effect.invalidate k ∷ es) query = covers k query || stale es query
  stale (Effect.invalidate_all ∷ es) query = true
  stale (_ ∷ es) query = stale es query

  -- The effects of a mutation's success; a question that was denied has none.
  abbrev success_of : Option Mutation → List Effect
  success_of none = []
  success_of (some m) = m.on_success

  covers_prefix : (k rest : Key) → covers k (k ++ rest) ≡ true
  covers_prefix k rest = (covers_iff k (k ++ rest)).1 (rest, refl)

  covers_false : (k query : Key) → ((rest : Key) → query ≢ k ++ rest) → covers k query ≡ false
  covers_false k query h = elim (Bool-cases (covers k query)) [
    | inl yes_ ↦ let (rest, e) = (covers_iff k query).0 yes_ in absurd (h rest e)
    | inr no_ ↦ no_
  ]

  -- Each action of a card, confirmed where it asks, marks every query whose key begins with "jobs",
  -- the list and single jobs.
  pub stale-card :
      (job : Job) (click : Card.Click) (rest : Key)
      → stale (success_of (Card.on_click job true click)) (key (lit "jobs") ∷ rest) ≡ true
  unfolding Card.on_click stale
  stale-card job Card.Click.run rest = rw (covers_prefix Card.jobs_key rest)
  stale-card job Card.Click.pause rest = rw (covers_prefix Card.jobs_key rest)
  stale-card job Card.Click.resume rest = rw (covers_prefix Card.jobs_key rest)
  stale-card job Card.Click.remove rest = rw (covers_prefix Card.jobs_key rest)

  not_jobs : (query rest : Key) → key (lit "executions") ∷ query ≢ Card.jobs_key ++ rest
  not_jobs query rest e =
      ne_of_eq_text (lit "executions") (lit "jobs") (unfold eq_text lit in refl) (cc e)

  detail_marks :
      (id : Text) (rest : Key)
      → (stale (Detail.invalidate id) (key (lit "jobs") ∷ rest) ≡ true)
        × (stale (Detail.invalidate id) (key (lit "executions") ∷ key id ∷ rest) ≡ true)
        × (stale (Detail.invalidate id) (key (lit "executions") ∷ []) ≡ false)
  unfolding stale
  detail_marks id rest = (
    rw (covers_prefix Card.jobs_key rest),
    rw (
      covers_false Card.jobs_key (key (lit "executions") ∷ key id ∷ rest)
          (λ r. not_jobs (key id ∷ rest) r),
      covers_prefix (Detail.executions_key id) rest,
    ),
    rw (
      covers_false Card.jobs_key (key (lit "executions") ∷ []) (λ r. not_jobs [] r),
      covers_false (Detail.executions_key id) (key (lit "executions") ∷ []) (λ r e. cc e),
    ),
  )

  -- Running, pausing and resuming a job from its page marks the queries of all jobs and those of
  -- the job's executions, but not the list of all executions; deleting it there, once confirmed,
  -- marks no query at all.
  pub stale-detail :
      (id : Text) (click : Detail.Click) (rest query : Key)
      → click ≢ Detail.Click.remove
      → let effects = success_of (Detail.on_click id true click) in
        (stale effects (key (lit "jobs") ∷ rest) ≡ true)
        × (stale effects (key (lit "executions") ∷ key id ∷ rest) ≡ true)
        × (stale effects (key (lit "executions") ∷ []) ≡ false)
        × (stale (success_of (Detail.on_click id true Detail.Click.remove)) query ≡ false)
  unfolding Detail.on_click
  stale-detail id Detail.Click.run rest query ne =
      let (a, b, c) = detail_marks id rest in (a, b, c, unfold stale in refl)
  stale-detail id Detail.Click.pause rest query ne =
      let (a, b, c) = detail_marks id rest in (a, b, c, unfold stale in refl)
  stale-detail id Detail.Click.resume rest query ne =
      let (a, b, c) = detail_marks id rest in (a, b, c, unfold stale in refl)
  stale-detail id Detail.Click.remove rest query ne = absurd (ne refl)
