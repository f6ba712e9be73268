-- ===== src/Backoffice/Builder.antt =====
-- frontend-dashboard/src/backoffice/core/organisms/BackofficeBuilderImpl.ts. A module keeps what
-- `build` copies; its methods read the builder that built it, so that they are functions of that
-- builder's state at the time of their call.
pub mod Laws
pub mod Plain
pub mod Agreement
use Prim.Native.String
use synkro.Base.{
  String, Bool, true, false, Option, none, some, List, [], ◌∷◌, ◌++◌, ◌==◌, if◌then◌else◌, truthy,
  given, or_else, includes, template, Failure, failure, Result, ok, err,
}
use synkro.Http.Calls.{ApiCall, get, post, put, delete}

-- `rest` is the icon and the permissions
pub record BackofficeConfig (A : Type 0) : Type 0 where
  pub title : String
  pub base_path : String
  pub rest : A

-- What the builder only hands on, the configurations of the list, the form and the details and the
-- navigation item, is of a type `A`. A field that is not set is `undefined`.
pub record Builder (A : Type 0) : Type 0 where
  pub config : Option (BackofficeConfig A)
  pub api_endpoint : Option String
  pub nav_item : Option A
  pub list_config : Option A
  pub form_config : Option A
  pub detail_config : Option A
  pub query_invalidations : List String

pub record BackofficeModule (A : Type 0) : Type 0 where
  pub config : BackofficeConfig A
  pub api_endpoint : String
  pub list_config : Option A
  pub form_config : Option A
  pub detail_config : Option A
  pub nav_item : Option A
  pub module_name : String
  pub query_invalidations : List String

-- the calls of the builder that change it
pub data Call (A : Type 0) : Type 0 where
  set_config : BackofficeConfig A → Call A
  set_api_endpoint : String → Call A
  set_nav_item set_list_config set_form_config set_detail_config : A → Call A
  add_query_invalidation : String → Call A
  reset : Call A

-- the template `${a}/${b}`
abbrev pub join_path : String → String → String
join_path a b = template a "/" b

module _ {A : Type 0} where
  abbrev pub new_builder : Builder A
  new_builder = record {
    config = none;
    api_endpoint = none;
    nav_item = none;
    list_config = none;
    form_config = none;
    detail_config = none;
    query_invalidations = [];
  }

  abbrev pub invalidate : String → Builder A → Builder A
  invalidate key b =
      if includes key b.query_invalidations
      then b
      else record b { query_invalidations = b.query_invalidations ++ key ∷ [] }

  unfoldable pub call : Call A → Builder A → Builder A
  call (set_config c) b = record b { config = some c }
  call (set_api_endpoint endpoint) b =
      invalidate endpoint (record b { api_endpoint = some endpoint })
  call (set_nav_item a) b = record b { nav_item = some a }
  call (set_list_config a) b = record b { list_config = some a }
  call (set_form_config a) b = record b { form_config = some a }
  call (set_detail_config a) b = record b { detail_config = some a }
  call (add_query_invalidation key) b = invalidate key b
  call reset b = new_builder

  unfoldable pub run : List (Call A) → Builder A → Builder A
  unfolding call
  run [] b = b
  run (c ∷ cs) b = run cs (call c b)

  -- `toLowerCase` of the language is an argument.
  unfoldable pub build : (String → String) → Builder A → Result (BackofficeModule A)
  build to_lower_case b = elim b.config [
    | none ↦ err (failure "BackofficeConfig must be set before building a module")
    | some c ↦ elim b.api_endpoint [
      | none ↦ err (failure "API endpoint must be set before building a module")
      | some endpoint ↦
          if truthy endpoint
          then ok (record {
            config = c;
            api_endpoint = endpoint;
            list_config = b.list_config;
            form_config = b.form_config;
            detail_config = b.detail_config;
            nav_item = b.nav_item;
            module_name = to_lower_case c.title;
            query_invalidations = b.query_invalidations;
          })
          else err (failure "API endpoint must be set before building a module")
    ]
  ]

  -- `${this.apiEndpoint}` and `${this.config?.basePath}`
  abbrev pub endpoint_text : Builder A → String
  endpoint_text b = or_else b.api_endpoint "undefined"

  abbrev pub base_path_text : Builder A → String
  base_path_text b = elim b.config [ none ↦ "undefined" | some c ↦ c.base_path ]

  module _ {D : Type 0} where
    abbrev pub fetch_list : Builder A → Option D → ApiCall D D
    fetch_list b params = get (endpoint_text b) params

    abbrev pub fetch_item : Builder A → String → ApiCall D D
    fetch_item b id = get (join_path (endpoint_text b) id) none

    abbrev pub create_item : Builder A → D → ApiCall D D
    create_item b data' = post (endpoint_text b) (some data')

    abbrev pub update_item : Builder A → String → D → ApiCall D D
    update_item b id data' = put (join_path (endpoint_text b) id) (some data')

    abbrev pub delete_item : Builder A → String → ApiCall D D
    delete_item b id = delete (join_path (endpoint_text b) id)

  abbrev pub get_list_path : Builder A → String
  get_list_path b = base_path_text b

  abbrev pub get_detail_path : Builder A → String → String
  get_detail_path b id = join_path (base_path_text b) id

  abbrev pub get_create_path : Builder A → String
  get_create_path b = join_path (base_path_text b) "create"

  abbrev pub get_edit_path : Builder A → String → String
  get_edit_path b id = join_path (join_path (base_path_text b) id) "edit"

  -- `getQueryKeys().detail`
  abbrev pub detail_key : BackofficeModule A → Option String → String
  detail_key m none = template m.module_name "-" "detail"
  detail_key m (some id) = template m.module_name "-" (if truthy id then id else "detail")
