-- ===== src/Http/Predictions.antt =====
-- frontend-dashboard/src/services/ai-prediction.service.ts: the requests of the predictions. The
-- methods throw what their request throws. `toISOString` of a date, a number of milliseconds, and the
-- text of a number are parameters.
pub mod Laws
use Prim.Native.String
use synkro.Base.{
  ℕ, String, Bool, Option, none, some, List, [], ◌∷◌, ◌++◌, ◌==◌, if◌then◌else◌, truthy, Result,
}
use synkro.AuthApp.Store.{Json}
use synkro.AuthApp.Messaging.{Person}
use synkro.Dashboard.Session.{AuthConfig, Browser}
use synkro.Http.{header, RequestConfig, FetchCall, Outcome, ApiService, Window, request}

-- an object of parameters, in the order of its keys
abbrev pub Params : Type 0
Params = List (String × String)

pub data PredictionMethod : Type 0 where
  get_predictions : ℕ → ℕ → Option String → PredictionMethod
  get_prediction : String → PredictionMethod
  get_models : PredictionMethod
  get_predictions_by_time_range : ℕ → ℕ → Option String → PredictionMethod
  generate_prediction : PredictionMethod
  get_confidence_distribution : Option String → PredictionMethod
  get_predictions_for_item : String → PredictionMethod
  download_predictions_csv : Option String → PredictionMethod

abbrev pub base_endpoint : String
base_endpoint = "api/v1/predictions"

-- `${this.baseEndpoint}${rest}`
abbrev pub at_base : String → String
at_base rest = String.◌++◌ base_endpoint rest

-- `if (modelName) params.model = modelName`
abbrev pub with_model : Option String → Params → Params
with_model none params = params
with_model (some model) params = if truthy model then params ++ ("model", model) ∷ [] else params

abbrev pub http_method : PredictionMethod → String
http_method generate_prediction = "POST"
http_method _ = "GET"

abbrev pub endpoint : PredictionMethod → String
endpoint (get_predictions page size model) = base_endpoint
endpoint (get_prediction id) = at_base (String.◌++◌ "/" id)
endpoint get_models = at_base "/models"
endpoint (get_predictions_by_time_range from to model) = at_base "/time-range"
endpoint generate_prediction = at_base "/generate"
endpoint (get_confidence_distribution model) = at_base "/confidence-distribution"
endpoint (get_predictions_for_item id) = at_base (String.◌++◌ "/item/" id)
endpoint (download_predictions_csv model) = at_base "/export"

module _ (show : ℕ → String) (iso : ℕ → String) where
  abbrev pub params_for : PredictionMethod → Option Params
  params_for (get_predictions page size model) =
      some (with_model model (("page", show page) ∷ ("page_size", show size) ∷ []))
  params_for (get_predictions_by_time_range from to model) =
      some (with_model model (("start", iso from) ∷ ("end", iso to) ∷ []))
  params_for (get_confidence_distribution model) = some (with_model model [])
  params_for (download_predictions_csv model) = some (with_model model [])
  params_for _ = none

module _ {B : Type 0} (show : ℕ → String) (iso : ℕ → String) where
  -- No method has a body.
  abbrev pub prediction_config : PredictionMethod → RequestConfig Params B
  prediction_config (download_predictions_csv model) = record {
    headers = some (header "Accept" "text/csv");
    timeout = none;
    params = params_for show iso (download_predictions_csv model);
    body = none;
  }
  prediction_config m = record {
    headers = none;
    timeout = none;
    params = params_for show iso m;
    body = none;
  }

  unfoldable pub predict :
      AuthConfig
      → Json Person
      → Browser
      → (String → Option Params → String)
      → ApiService
      → (FetchCall B → Outcome B)
      → PredictionMethod
      → Window
      → Result B × Window
  unfolding request
  predict auth codec browser url service fetch m w =
      request auth codec browser url show service fetch (http_method m) (endpoint m)
        (prediction_config m) w
