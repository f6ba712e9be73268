-- ===== src/Backoffice/Builder/Agreement.antt =====
-- The two builders of the repository agree.
use synkro.Base.{
  String, Option, none, some, List, [], ◌∷◌, map, ◌≡◌, refl, truthy, if-splits, includes,
  Bool-cases, inl, inr, Result, ok, err,
}
use synkro.Backoffice.Builder.{
  BackofficeConfig, Builder, BackofficeModule, Call, set_config, set_api_endpoint, set_nav_item,
  set_list_config, set_form_config, set_detail_config, new_builder, call, run, build,
}
use synkro.Backoffice.Builder.Plain as Plain

-- Both fields are set to the same, or neither is: one is `undefined`, the other `null`.
abbrev pub SameField : {B : Type 0} → Option B → Plain.Nullable B → Type 0
SameField none Plain.null = Unit
SameField (some a) (Plain.value b) = a ≡ b
SameField _ _ = ⊥

module _ {A : Type 0} where
  -- The calls of one builder that the settings of the other are.
  abbrev pub call_of : Plain.Setting A → Call A
  call_of (Plain.config_is c) = set_config c
  call_of (Plain.endpoint_is endpoint) = set_api_endpoint endpoint
  call_of (Plain.nav_item_is a) = set_nav_item a
  call_of (Plain.list_is a) = set_list_config a
  call_of (Plain.form_is a) = set_form_config a
  call_of (Plain.detail_is a) = set_detail_config a

  abbrev pub SameSettings : Builder A → Plain.PlainBuilder A → Type 0
  SameSettings b p =
      SameField b.config p.config
      × SameField b.api_endpoint p.api_endpoint
      × SameField b.nav_item p.nav_item
      × SameField b.list_config p.list_config
      × SameField b.form_config p.form_config
      × SameField b.detail_config p.detail_config

  -- What the two builds have in common.
  abbrev pub SameBuild : Result (BackofficeModule A) → Result (Plain.PlainModule A) → Type 0
  SameBuild (ok m) (ok p) =
      (m.config ≡ p.config)
      × (m.api_endpoint ≡ p.api_endpoint)
      × SameField m.nav_item p.nav_item
      × SameField m.list_config p.list_config
      × SameField m.form_config p.form_config
      × SameField m.detail_config p.detail_config
  SameBuild (err e) (err f) = Unit
  SameBuild _ _ = ⊥

  set-SameSettings :
      (s : Plain.Setting A) (b : Builder A) (p : Plain.PlainBuilder A)
      → SameSettings b p
      → SameSettings (call (call_of s) b) (Plain.set s p)
  unfolding call Plain.set
  set-SameSettings (Plain.config_is c) b p (f, g, h, i, j, k) = (refl, g, h, i, j, k)
  set-SameSettings (Plain.endpoint_is endpoint) b p (f, g, h, i, j, k) =
      if-splits (λ b'. SameSettings b' (record p { api_endpoint = Plain.value endpoint }))
        (includes endpoint b.query_invalidations) (record b { api_endpoint = some endpoint }) _
        (λ e. (f, refl, h, i, j, k)) (λ e. (f, refl, h, i, j, k))
  set-SameSettings (Plain.nav_item_is a) b p (f, g, h, i, j, k) = (f, g, refl, i, j, k)
  set-SameSettings (Plain.list_is a) b p (f, g, h, i, j, k) = (f, g, h, refl, j, k)
  set-SameSettings (Plain.form_is a) b p (f, g, h, i, j, k) = (f, g, h, i, refl, k)
  set-SameSettings (Plain.detail_is a) b p (f, g, h, i, j, k) = (f, g, h, i, j, refl)

  build-SameBuild :
      (to_lower_case : String → String) (b : Builder A) (p : Plain.PlainBuilder A)
      → SameSettings b p
      → SameBuild (build to_lower_case b) (Plain.build p)
  unfolding build Plain.build
  build-SameBuild to_lower_case b p (f, g, h, i, j, k) =
      go b.config p.config b.api_endpoint p.api_endpoint f g
    where
      go :
          (c : Option (BackofficeConfig A)) (d : Plain.Nullable (BackofficeConfig A))
          (e : Option String) (x : Plain.Nullable String)
          → SameField c d
          → SameField e x
          → SameBuild
              (build to_lower_case (record b { config = c; api_endpoint = e }))
              (Plain.build (record p { config = d; api_endpoint = x }))
      go none Plain.null e x s t = tt
      go none (Plain.value d) e x s t = absurd s
      go (some c) Plain.null e x s t = absurd s
      go (some c) (Plain.value d) none Plain.null s t = tt
      go (some c) (Plain.value d) none (Plain.value x) s t = absurd t
      go (some c) (Plain.value d) (some e) Plain.null s t = absurd t
      go (some c) (Plain.value d) (some e) (Plain.value x) s t = elim (Bool-cases (truthy x)) [
        | inl full ↦ rw (t, full) (s, refl, h, i, j, k)
        | inr empty ↦ rw (t, empty) tt
      ]

  run-SameSettings :
      (ss : List (Plain.Setting A)) (b : Builder A) (p : Plain.PlainBuilder A)
      → SameSettings b p
      → SameSettings (run (map call_of ss) b) (Plain.set_all ss p)
  unfolding run Plain.set_all
  run-SameSettings [] b p same = same
  run-SameSettings (s ∷ ss) b p same =
      run-SameSettings ss (call (call_of s) b) (Plain.set s p) (set-SameSettings s b p same)

  -- The two builders of the repository, given the same settings in the same order, both throw or both
  -- build a module with the same configuration and endpoint, and with the same navigation item and
  -- screens, where they were set; one that was not set is `undefined` in one and `null` in the other.
  pub build-agrees :
      (to_lower_case : String → String) (ss : List (Plain.Setting A))
      → SameBuild
          (build to_lower_case (run (map call_of ss) new_builder))
          (Plain.build (Plain.set_all ss Plain.new_builder))
  build-agrees to_lower_case ss =
      build-SameBuild to_lower_case _ _
        (run-SameSettings ss new_builder Plain.new_builder (tt, tt, tt, tt, tt, tt))
