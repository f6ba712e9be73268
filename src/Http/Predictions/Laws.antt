-- ===== src/Http/Predictions/Laws.antt =====
-- What the predictions ask for.
use Prim.Native.String
use Prim.Native.String.{[], ◌∷◌}
use synkro.Base.{
  ℕ, String, false, Option, none, some, List, ◌++◌, ◌≡◌, ◌≢◌, refl, ◌∙◌, arith, eq_iff, ◌==◌,
  if◌then◌else◌, truthy, template, ==_refl, Bool-cases, inl, inr,
}
use synkro.AuthApp.Store.{Json}
use synkro.AuthApp.Messaging.{Person}
use synkro.Dashboard.Session.{AuthConfig, Browser}
use synkro.Http.{
  FetchCall, ApiService, Window, starts_with_slash, without_slash, create_url, fetch_call,
}
use synkro.Http.Laws.{IsSent, fetch_call-headers}
use synkro.Http.Predictions.{
  Params, PredictionMethod, get_predictions, get_prediction, get_models,
  get_predictions_by_time_range, generate_prediction, get_confidence_distribution,
  get_predictions_for_item, download_predictions_csv, base_endpoint, at_base, with_model,
  http_method, endpoint, params_for, prediction_config,
}

-- The model that a method is asked for, if its name is not empty.
abbrev pub named : Option String → Option String
named none = none
named (some model) = if truthy model then some model else none

abbrev pub model_of : PredictionMethod → Option String
model_of (get_predictions page size model) = named model
model_of (get_predictions_by_time_range from to model) = named model
model_of (get_confidence_distribution model) = named model
model_of (download_predictions_csv model) = named model
model_of _ = none

-- The value of a parameter.
abbrev pub param : String → Params → Option String
param key List.[] = none
param key (List.◌∷◌ (k, v) ps) = if k == key then some v else param key ps

abbrev pub asked : Option Params → Option String
asked none = none
asked (some ps) = param "model" ps

param-append :
    (key v : String) (ps : Params)
    → param key ps ≡ none
    → param key (ps ++ List.◌∷◌ (key, v) List.[]) ≡ some v
param-append key v List.[] h = rw (==_refl key) refl
param-append key v (List.◌∷◌ (k, u) ps) h = elim (Bool-cases (k == key)) [
  | inl same ↦ absurd (ground (arith, h, same))
  | inr other ↦ rw other (param-append key v ps (ground (arith, h, other)))
]

with_model-asked :
    (model : Option String) (ps : Params)
    → param "model" ps ≡ none
    → param "model" (with_model model ps) ≡ named model
with_model-asked none ps h = h
with_model-asked (some model) ps h = elim (Bool-cases (truthy model)) [
  | inl full ↦ rw full (param-append "model" model ps h)
  | inr empty ↦ rw empty h
]

params_for-model :
    (show : ℕ → String) (iso : ℕ → String) (m : PredictionMethod)
    → asked (params_for show iso m) ≡ model_of m
params_for-model show iso (get_predictions page size model) = with_model-asked model _ refl
params_for-model show iso (get_prediction id) = refl
params_for-model show iso get_models = refl
params_for-model show iso (get_predictions_by_time_range from to model) =
    with_model-asked model _ refl
params_for-model show iso generate_prediction = refl
params_for-model show iso (get_confidence_distribution model) = with_model-asked model _ refl
params_for-model show iso (get_predictions_for_item id) = refl
params_for-model show iso (download_predictions_csv model) = with_model-asked model _ refl

endpoint-base : (m : PredictionMethod) → (rest : String) × (endpoint m ≡ at_base rest)
endpoint-base (get_predictions page size model) = ("", refl)
endpoint-base (get_prediction id) = (String.◌++◌ "/" id, refl)
endpoint-base get_models = ("/models", refl)
endpoint-base (get_predictions_by_time_range from to model) = ("/time-range", refl)
endpoint-base generate_prediction = ("/generate", refl)
endpoint-base (get_confidence_distribution model) = ("/confidence-distribution", refl)
endpoint-base (get_predictions_for_item id) = (String.◌++◌ "/item/" id, refl)
endpoint-base (download_predictions_csv model) = ("/export", refl)

no_slash-append :
    (s t : String)
    → (s == "") ≡ false
    → starts_with_slash s ≡ false
    → starts_with_slash (String.◌++◌ s t) ≡ false
no_slash-append [] t full h = absurd (ground arith)
no_slash-append (c ∷ s) t full h = (λ i. starts_with_slash (String.append.cons c s t i)) ∙ h

-- The content type that is sent: none with the export's own headers, else the usual one.
abbrev pub IsTyped : ApiService → PredictionMethod → Option String → Type 0
IsTyped service (download_predictions_csv model) value = value ≡ none
IsTyped service _ value = IsSent service none "Content-Type" value

config-IsTyped :
    (show iso : ℕ → String) (service : ApiService) (m : PredictionMethod) (v : Option String)
    → IsSent service (prediction_config {B = String} show iso m).headers "Content-Type" v
    → IsTyped service m v
config-IsTyped show iso service (get_predictions page size model) v h = h
config-IsTyped show iso service (get_prediction id) v h = h
config-IsTyped show iso service get_models v h = h
config-IsTyped show iso service (get_predictions_by_time_range from to model) v h = h
config-IsTyped show iso service generate_prediction v h = h
config-IsTyped show iso service (get_confidence_distribution model) v h = h
config-IsTyped show iso service (get_predictions_for_item id) v h = h
config-IsTyped show iso service (download_predictions_csv model) v h = h

config-params :
    (show iso : ℕ → String) (m : PredictionMethod)
    → (prediction_config {B = String} show iso m).params ≡ params_for show iso m
config-params show iso (get_predictions page size model) = refl
config-params show iso (get_prediction id) = refl
config-params show iso get_models = refl
config-params show iso (get_predictions_by_time_range from to model) = refl
config-params show iso generate_prediction = refl
config-params show iso (get_confidence_distribution model) = refl
config-params show iso (get_predictions_for_item id) = refl
config-params show iso (download_predictions_csv model) = refl

module _ (auth : AuthConfig) (codec : Json Person) (browser : Browser)
    (url : String → Option Params → String) (show iso : ℕ → String) (service : ApiService) where
  abbrev pub prediction_call : PredictionMethod → Window → FetchCall String
  prediction_call m w =
      fetch_call auth codec browser url show service (http_method m) (endpoint m)
        (prediction_config show iso m) w

  -- In a session with a token that is not empty, every request of the predictions goes to the base URL
  -- without its last slash, followed by `/api/v1/predictions` and the rest of the method's path; it
  -- has the parameter `model` exactly if the caller gives a name that is not empty; it has the token;
  -- and it has a content type as every request, except for the export, whose headers replace it.
  pub prediction_call-IsTyped :
      (m : PredictionMethod) (token : String) (w : Window)
      → w.session.token ≡ some token
      → token ≢ ""
      → let c = prediction_call m w in
        ((rest : String) × (c.url
            ≡ url
                (String.◌++◌ (without_slash service.base_url) (String.◌++◌ "/" (at_base rest)))
                (params_for show iso m)))
        × (asked (params_for show iso m) ≡ model_of m)
        × (c.headers "Authorization" ≡ some (template "Bearer " token ""))
        × IsTyped service m (c.headers "Content-Type")
  unfolding fetch_call create_url
  prediction_call-IsTyped m token w has ne =
      let (rest, e) = endpoint-base m in
      let bare = no_slash-append base_endpoint rest refl refl in
      let (bearer, sent) =
        fetch_call-headers auth codec browser url show service (http_method m) (endpoint m) token
          "Content-Type" (prediction_config {B = String} show iso m) w has ne
          (ground (arith, eq_iff "Content-Type" "Authorization")) in
      (
        (rest, rw (e, bare, config-params show iso m) refl),
        params_for-model show iso m,
        bearer,
        config-IsTyped show iso service m _ sent,
      )
