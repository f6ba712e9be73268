-- ===== src/Backoffice/Builder/Laws.antt =====
-- The builder as a specification sees it: what each setter was last given, and a set of query keys.
use synkro.Base.{
  String, Bool, true, false, ◌||◌, Option, none, some, List, [], ◌∷◌, ◌≡◌, ◌≢◌, ◌⊎◌, refl, ap, ◌∙◌,
  subst, arith, eq_iff, ◌==◌, truthy, if◌then◌else◌, if-splits, elim-splits, includes,
  includes-append, Distinct, Distinct-concat, Bool-cases, inl, inr, failure, Result, ok, err,
  ok-injective,
}
use synkro.Backoffice.Builder.{
  BackofficeConfig, Builder, BackofficeModule, Call, set_config, set_api_endpoint, set_nav_item,
  set_list_config, set_form_config, set_detail_config, add_query_invalidation, reset, join_path,
  new_builder, invalidate, call, run, build, fetch_list, fetch_item, create_item, update_item,
  delete_item, get_list_path, get_detail_path, get_create_path, get_edit_path,
}
use synkro.Http.Calls.{get, post, put, delete}

-- The abstract builder; the set of the query keys is a predicate.
pub record View (A : Type 0) : Type 0 where
  pub config : Option (BackofficeConfig A)
  pub api_endpoint : Option String
  pub nav_item : Option A
  pub list_config : Option A
  pub form_config : Option A
  pub detail_config : Option A
  pub keys : String → Bool

abbrev pub with_key : String → (String → Bool) → String → Bool
with_key key keys q = (key == q) || keys q

module _ {A : Type 0} where
  abbrev pub view : Builder A → View A
  view b = record {
    config = b.config;
    api_endpoint = b.api_endpoint;
    nav_item = b.nav_item;
    list_config = b.list_config;
    form_config = b.form_config;
    detail_config = b.detail_config;
    keys = λ key. includes key b.query_invalidations;
  }

  abbrev pub empty_view : View A
  empty_view = record {
    config = none;
    api_endpoint = none;
    nav_item = none;
    list_config = none;
    form_config = none;
    detail_config = none;
    keys = λ key. false;
  }

  -- What a call means.
  abbrev pub recorded : Call A → View A → View A
  recorded (set_config c) v = record v { config = some c }
  recorded (set_api_endpoint endpoint) v = record v {
    api_endpoint = some endpoint;
    keys = with_key endpoint v.keys;
  }
  recorded (set_nav_item a) v = record v { nav_item = some a }
  recorded (set_list_config a) v = record v { list_config = some a }
  recorded (set_form_config a) v = record v { form_config = some a }
  recorded (set_detail_config a) v = record v { detail_config = some a }
  recorded (add_query_invalidation key) v = record v { keys = with_key key v.keys }
  recorded reset v = empty_view

  abbrev pub replay : List (Call A) → View A → View A
  replay [] v = v
  replay (c ∷ cs) v = replay cs (recorded c v)

  invalidate-keys :
      (key q : String) (b : Builder A)
      → includes q (invalidate key b).query_invalidations
        ≡ with_key key (λ k. includes k b.query_invalidations) q
  invalidate-keys key q b = elim (Bool-cases (includes key b.query_invalidations)) [
    | inl there ↦ rw there (ground (arith, eq_iff key q))
    | inr new ↦ rw new (ground (arith, includes-append q b.query_invalidations (key ∷ [])))
  ]

  invalidate-Distinct :
      (key : String) (b : Builder A)
      → Distinct b.query_invalidations
      → Distinct (invalidate key b).query_invalidations
  invalidate-Distinct key b d =
      if-splits (λ (b' : Builder A). Distinct b'.query_invalidations)
        (includes key b.query_invalidations) b _ (λ there. d)
        (λ new. Distinct-concat b.query_invalidations key d new)

  view-if :
      (b : Builder A) (same : Bool) (keys : List String)
      → let b' = if same then b else record b { query_invalidations = keys } in
        view b' ≡ record (view b) { keys = λ q. includes q b'.query_invalidations }
  view-if b true keys = refl
  view-if b false keys = refl

  invalidate-view :
      (key : String) (b : Builder A)
      → view (invalidate key b) ≡ record (view b) { keys = with_key key (view b).keys }
  invalidate-view key b =
      view-if b _ _ ∙ (λ i. record (view b) { keys = λ q. invalidate-keys key q b i })

  call-view : (c : Call A) (b : Builder A) → view (call c b) ≡ recorded c (view b)
  unfolding call
  call-view (set_config c) b = refl
  call-view (set_api_endpoint endpoint) b =
      invalidate-view endpoint (record b { api_endpoint = some endpoint })
  call-view (set_nav_item a) b = refl
  call-view (set_list_config a) b = refl
  call-view (set_form_config a) b = refl
  call-view (set_detail_config a) b = refl
  call-view (add_query_invalidation key) b = invalidate-view key b
  call-view reset b = refl

  call-Distinct :
      (c : Call A) (b : Builder A)
      → Distinct b.query_invalidations
      → Distinct (call c b).query_invalidations
  unfolding call
  call-Distinct (set_config c) b d = d
  call-Distinct (set_api_endpoint endpoint) b d =
      invalidate-Distinct endpoint (record b { api_endpoint = some endpoint }) d
  call-Distinct (set_nav_item a) b d = d
  call-Distinct (set_list_config a) b d = d
  call-Distinct (set_form_config a) b d = d
  call-Distinct (set_detail_config a) b d = d
  call-Distinct (add_query_invalidation key) b d = invalidate-Distinct key b d
  call-Distinct reset b d = tt

  -- What the specification says of `build`: the two errors, and what a module holds.
  abbrev pub IsBuilt : (String → String) → View A → Result (BackofficeModule A) → Type 0
  IsBuilt to_lower_case v (ok m) =
      (v.config ≡ some m.config)
      × (v.api_endpoint ≡ some m.api_endpoint)
      × (m.api_endpoint ≢ "")
      × (v.nav_item ≡ m.nav_item)
      × (v.list_config ≡ m.list_config)
      × (v.form_config ≡ m.form_config)
      × (v.detail_config ≡ m.detail_config)
      × (m.module_name ≡ to_lower_case m.config.title)
      × ((q : String) → includes q m.query_invalidations ≡ v.keys q)
      × Distinct m.query_invalidations
  IsBuilt to_lower_case v (err e) =
      ((v.config ≡ none) × (e ≡ failure "BackofficeConfig must be set before building a module"))
      ⊎ ((v.config ≢ none)
          × ((v.api_endpoint ≡ none) ⊎ (v.api_endpoint ≡ some ""))
          × (e ≡ failure "API endpoint must be set before building a module"))

  build-IsBuilt :
      (to_lower_case : String → String) (b : Builder A)
      → Distinct b.query_invalidations
      → IsBuilt to_lower_case (view b) (build to_lower_case b)
  unfolding build
  build-IsBuilt to_lower_case b d =
      elim-splits (IsBuilt to_lower_case (view b)) b.config _ _ (λ no. inl (no, refl))
        (λ c has.
          elim-splits (IsBuilt to_lower_case (view b)) b.api_endpoint _ _
            (λ no. inr ((λ e. ground arith), inl no, refl))
            (λ endpoint known.
              if-splits (IsBuilt to_lower_case (view b)) (truthy endpoint) _ _
                (λ t. (
                  has,
                  known,
                  (λ e. ground (arith, eq_iff endpoint "")),
                  refl,
                  refl,
                  refl,
                  refl,
                  refl,
                  (λ q. refl),
                  d,
                ))
                (λ f. inr (
                  (λ e. ground arith),
                  inr (known ∙ ap some (ground (arith, eq_iff endpoint ""))),
                  refl,
                ))))

  build-fields :
      (to_lower_case : String → String) (b : Builder A) (m : BackofficeModule A)
      → build to_lower_case b ≡ ok m
      → (b.config ≡ some m.config) × (b.api_endpoint ≡ some m.api_endpoint)
  unfolding build
  build-fields to_lower_case b m =
      let Holds = λ (r : Result (BackofficeModule A)).
        r ≡ ok m → (b.config ≡ some m.config) × (b.api_endpoint ≡ some m.api_endpoint) in
      elim-splits Holds b.config _ _ (λ no e. absurd (ground arith))
        (λ c has.
          elim-splits Holds b.api_endpoint _ _ (λ no e. absurd (ground arith))
            (λ endpoint known.
              if-splits Holds (truthy endpoint) _ _
                (λ t e. (
                  has ∙ ap (λ r. some r.config) (ok-injective _ m e),
                  known ∙ ap (λ r. some r.api_endpoint) (ok-injective _ m e),
                ))
                (λ f e. absurd (ground arith))))

  run-keeps :
      (cs : List (Call A)) (b : Builder A)
      → Distinct b.query_invalidations
      → (view (run cs b) ≡ replay cs (view b)) × Distinct (run cs b).query_invalidations
  unfolding run
  run-keeps [] b d = (refl, d)
  run-keeps (c ∷ cs) b d =
      let (same, distinct) = run-keeps cs (call c b) (call-Distinct c b d) in
      (same ∙ ap (replay cs) (call-view c b), distinct)

  -- The builder implements its specification: after any calls it holds what the setters were last
  -- given since the last `reset`, and as query keys the set of those added and of the endpoints, each
  -- once; and `build` then throws for a missing configuration, else for a missing or empty endpoint,
  -- and otherwise gives a module of exactly this.
  pub run-IsBuilt :
      (to_lower_case : String → String) (cs : List (Call A))
      → (view (run cs new_builder) ≡ replay cs empty_view)
        × IsBuilt to_lower_case (replay cs empty_view) (build to_lower_case (run cs new_builder))
  run-IsBuilt to_lower_case cs =
      let (same, distinct) = run-keeps cs new_builder tt in
      (
        same,
        subst (λ v. IsBuilt to_lower_case v (build to_lower_case (run cs new_builder))) same
            (build-IsBuilt to_lower_case (run cs new_builder) distinct),
      )

  -- The requests and paths of a module are those of its endpoint and base path as long as its builder
  -- is not changed; once the builder is reset they are those of the text `undefined`.
  pub build-requests :
      {D : Type 0} (to_lower_case : String → String) (b : Builder A) (m : BackofficeModule A)
      (params : Option D) (item : D) (id : String)
      → build to_lower_case b ≡ ok m
      → ((fetch_list b params ≡ get m.api_endpoint params)
          × (fetch_item {D = D} b id ≡ get (join_path m.api_endpoint id) none)
          × (create_item b item ≡ post m.api_endpoint (some item))
          × (update_item b id item ≡ put (join_path m.api_endpoint id) (some item))
          × (delete_item {D = D} b id ≡ delete (join_path m.api_endpoint id)))
        × ((get_list_path b ≡ m.config.base_path)
            × (get_detail_path b id ≡ join_path m.config.base_path id)
            × (get_create_path b ≡ join_path m.config.base_path "create")
            × (get_edit_path b id ≡ join_path (join_path m.config.base_path id) "edit"))
        × ((fetch_list (call reset b) params ≡ get "undefined" params)
            × (get_list_path (call reset b) ≡ "undefined"))
  unfolding call
  build-requests to_lower_case b m params item id built =
      let (config, endpoint) = build-fields to_lower_case b m built in
      (rw endpoint (refl, refl, refl, refl, refl), rw config (refl, refl, refl, refl), (refl, refl))
