-- ===== src/Analytics/Calls.antt =====
-- frontend-dashboard/src/hooks/useAnalytics.ts: the calls of all methods, from the request to the answer.
use synkro.Base.{
  ℕ, String, Bool, true, false, List, [], ◌∷◌, All, ◌==◌, ◌||◌, if◌then◌else◌, truthy, subst, ◌∙◌,
  Option, none, some, ◌≡◌, refl, ap, arith, Result, ok, err,
}
use synkro.AuthApp.Store.{Json}
use synkro.AuthApp.Messaging.{Person}
use synkro.Dashboard.Session.{AuthConfig, Browser}
use synkro.Http.{FetchCall, Outcome, ApiService, Window}
use synkro.Http.Hooks.{Hook, begin}
use synkro.Analytics.{AnalyticsMethod, method, call, conclude}
use synkro.Analytics.Values.{Value, text, object, Fields, BuiltIns, get_field}
use synkro.Analytics.Validation.Laws.{completed_fields, Has}
use synkro.Analytics.Validation.{
  sankey, pie, funnel, line_or_area, stacked_bar, other_chart, type_named, chart_type,
}
use synkro.Analytics.Validation.Filled.{IsFilledIn}
use synkro.Analytics.Answers.{
  validates, on_response-AllSound, recover-AllSound, bind-AllSound, on_error-AllSound,
}
use synkro.Analytics.Fallbacks.{fallback-is_chart}
use synkro.Analytics.Methods.{recover}
use synkro.Charts.{DateFns, Numbers}
use synkro.Charts.Volume.{TimeInputs}

-- what validated metadata has, by the text of its type
abbrev pub filled_fields : String → List String
filled_fields t =
    if t == "sankey"
    then "source" ∷ "target" ∷ "value" ∷ []
    else if t == "pie"
    then "dimension" ∷ "metric" ∷ []
    else if t == "funnel"
    then "dimension" ∷ "metric" ∷ []
    else if t == "line" || t == "area"
    then "xAxis" ∷ "yAxis" ∷ []
    else if t == "stacked-bar"
    then "xAxis" ∷ "yAxis" ∷ "groupBy" ∷ []
    else []

completed-filled : (t : String) → completed_fields (type_named t) ≡ filled_fields t
completed-filled t =
    go (t == "sankey") (t == "pie") (t == "funnel") (t == "line" || t == "area")
      (t == "stacked-bar")
  where
    go :
        (a b c d e : Bool)
        → completed_fields (
            if a
            then sankey
            else if b
            then pie
            else if c
            then funnel
            else if d
            then line_or_area
            else if e
            then stacked_bar
            else other_chart)
          ≡ (if a
              then "source" ∷ "target" ∷ "value" ∷ []
              else if b
              then "dimension" ∷ "metric" ∷ []
              else if c
              then "dimension" ∷ "metric" ∷ []
              else if d
              then "xAxis" ∷ "yAxis" ∷ []
              else if e
              then "xAxis" ∷ "yAxis" ∷ "groupBy" ∷ []
              else [])
    go true b c d e = refl
    go false true c d e = refl
    go false false true d e = refl
    go false false false true e = refl
    go false false false false true = refl
    go false false false false false = refl

recover-ok : {A : Type 0} (r q : Result A) (a : A) → q ≡ ok a → (b : A) × (recover r q ≡ ok b)
recover-ok (ok b) q a h = (b, refl)
recover-ok (err e) q a h = (a, h)

conclude-begin : (h : Hook) → conclude (begin h) ≡ record h { loading = false; error = none }
unfolding conclude begin
conclude-begin h = ground arith

module _ {N : Type 0} (js : BuiltIns N) (inputs : TimeInputs N) (dates : DateFns)
    (numbers : Numbers N) (auth : AuthConfig) (codec : Json Person) (browser : Browser)
    (url : String → Option (Unit {0}) → String) (show : ℕ → String) (service : ApiService)
    (fetch : FetchCall (Value N) → Outcome (Value N)) where
  abbrev pub run_call : AnalyticsMethod → Hook → Window → Result (Value N) × Hook × Window
  run_call m h w =
      call auth codec browser url show service fetch (method js inputs dates numbers m) h w

  -- A call of any method ends in an answer and never throws, whatever its request ends in: an error of
  -- the request or of the code that handles the response is not passed on. The hook is then not
  -- loading, and has no error.
  pub call-ends :
      (m : AnalyticsMethod) (h : Hook) (w : Window)
      → (v : Value N) × ((run_call m h w).0 ≡ ok v)
        × ((run_call m h w).1 ≡ record h { loading = false; error = none })
  unfolding call
  call-ends m h w =
      let (e, _) = fallback-is_chart js inputs dates numbers m in
      let (v, f) = recover-ok _ _ _ e in (v, f, conclude-begin h)

  -- An answer of a method of the inventory, the orders or the transactions, if it is an object whose
  -- metadata has a type that is a text and not empty, has in its metadata, truthy, the source, target and
  -- value of a sankey diagram, the dimension and metric of a pie or funnel, the axes of a line or area
  -- chart, and the axes and groups of a stacked bar chart. Nothing is said of charts of other types,
  -- bar charts among them.
  pub call-IsFilledIn :
      (m : AnalyticsMethod) (h : Hook) (w : Window) (fs meta : Fields N) (t : String)
      → validates m ≡ true
      → (run_call m h w).0 ≡ ok (object fs)
      → get_field "metadata" fs ≡ some (object meta)
      → get_field "type" meta ≡ some (text t)
      → truthy t ≡ true
      → All (Has js meta) (filled_fields t)
  unfolding call
  call-IsFilledIn m h w fs meta t good e at_meta at_type full =
      let filled : IsFilledIn js meta =
        recover-AllSound js _ _
          (bind-AllSound js _ _ (λ r. on_response-AllSound js inputs dates numbers m r good))
          (on_error-AllSound js inputs dates numbers m good) (object fs) e fs meta refl at_meta
          (rw at_type full) in
      subst (All (Has js meta))
        (ap (λ o. completed_fields (chart_type o)) at_type ∙ completed-filled t) filled
