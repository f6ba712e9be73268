-- ===== src/Backoffice/Builder/Plain.antt =====
-- frontend-dashboard/src/backoffice/core/builders/BackofficeBuilderImpl.tsx, the builder that the
-- application uses: it keeps no query keys and cannot be reset, and what is not set is `null`, where the
-- other builder has `undefined`.
use synkro.Base.{String, List, [], ◌∷◌, if◌then◌else◌, truthy, failure, Result, ok, err}
use synkro.Backoffice.Builder.{BackofficeConfig}

pub data Nullable (A : Type 0) : Type 0 where
  null : Nullable A
  value : A → Nullable A

pub record PlainBuilder (A : Type 0) : Type 0 where
  pub config : Nullable (BackofficeConfig A)
  pub api_endpoint : Nullable String
  pub nav_item : Nullable A
  pub list_config : Nullable A
  pub form_config : Nullable A
  pub detail_config : Nullable A

-- what `build` returns, but for its methods
pub record PlainModule (A : Type 0) : Type 0 where
  pub config : BackofficeConfig A
  pub api_endpoint : String
  pub list_config : Nullable A
  pub form_config : Nullable A
  pub detail_config : Nullable A
  pub nav_item : Nullable A

pub data Setting (A : Type 0) : Type 0 where
  config_is : BackofficeConfig A → Setting A
  endpoint_is : String → Setting A
  nav_item_is list_is form_is detail_is : A → Setting A

module _ {A : Type 0} where
  abbrev pub new_builder : PlainBuilder A
  new_builder = record {
    config = null;
    api_endpoint = null;
    nav_item = null;
    list_config = null;
    form_config = null;
    detail_config = null;
  }

  unfoldable pub set : Setting A → PlainBuilder A → PlainBuilder A
  set (config_is c) b = record b { config = value c }
  set (endpoint_is endpoint) b = record b { api_endpoint = value endpoint }
  set (nav_item_is a) b = record b { nav_item = value a }
  set (list_is a) b = record b { list_config = value a }
  set (form_is a) b = record b { form_config = value a }
  set (detail_is a) b = record b { detail_config = value a }

  unfoldable pub set_all : List (Setting A) → PlainBuilder A → PlainBuilder A
  unfolding set
  set_all [] b = b
  set_all (s ∷ ss) b = set_all ss (set s b)

  unfoldable pub build : PlainBuilder A → Result (PlainModule A)
  build b = elim b.config [
    | null ↦ err (failure "Backoffice config is required")
    | value c ↦ elim b.api_endpoint [
      | null ↦ err (failure "API endpoint is required")
      | value endpoint ↦
          if truthy endpoint
          then ok (record {
            config = c;
            api_endpoint = endpoint;
            list_config = b.list_config;
            form_config = b.form_config;
            detail_config = b.detail_config;
            nav_item = b.nav_item;
          })
          else err (failure "API endpoint is required")
    ]
  ]
