-- ===== src/Http/Laws.antt =====
-- What a request sends and what each answer leaves.
use synkro.Base.{
  ℕ, ◌≤◌, ◌<◌, String, true, false, Option, none, some, ◌≡◌, ◌≢◌, ◌⊎◌, refl, arith, eq_iff, ◌==◌,
  if◌then◌else◌, truthy, template, failure, Result, err,
}
use synkro.AuthApp.Store.{Json}
use synkro.AuthApp.Messaging.{Person}
use synkro.Dashboard.Session.{AuthConfig, Browser}
use synkro.Http.{
  Headers, RequestConfig, Response, Outcome, aborted, failed, responded, ApiService, Window,
  merged_headers, fetch_call,
}

-- What is sent under a name that is not `Authorization`.
abbrev pub IsSent : ApiService → Option Headers → String → Option String → Type 0
IsSent service none name value = value ≡ (elim (service.default_headers name) [
  | none ↦ if "Content-Type" == name then some "application/json" else none
  | some v ↦ some v
])
IsSent service (some own) name value = value ≡ own name

merged-IsSent :
    {Q B : Type 0} (service : ApiService) (config : RequestConfig Q B) (name : String)
    → IsSent service config.headers name (merged_headers service config name)
merged-IsSent service config name = go config.headers (service.default_headers name) refl
  where
    go :
        (own : Option Headers) (standard : Option String)
        → service.default_headers name ≡ standard
        → IsSent service own name (merged_headers service (record config { headers = own }) name)
    go none none e = rw e refl
    go none (some v) e = rw e refl
    go (some own) standard e = refl

module _ {B : Type 0} (show : ℕ → String) where
  -- The message that the server sent, or else the status.
  abbrev pub error_text : Response B → String
  error_text a = elim a.message [
    | none ↦ template "Request failed with status " (show a.status) ""
    | some m ↦ if truthy m then m else template "Request failed with status " (show a.status) ""
  ]

  -- What an answer means for the caller and the window, by the outcome of `fetch`.
  abbrev pub IsSettled : ℕ → Window → Outcome B → Result B × Window → Type 0
  IsSettled timeout w aborted (r, w') =
      (r ≡ err (failure (template "Request timeout after " (show timeout) "ms"))) × (w' ≡ w)
  IsSettled timeout w (failed e) (r, w') = (r ≡ err e) × (w' ≡ w)
  IsSettled timeout w (responded a) (r, w') =
      ((a.status ≡ 401)
        × (r ≡ err (failure "Unauthorized"))
        × (w'.session.token ≡ none)
        × (w'.session.user ≡ none)
        × (w'.at_login ≡ true))
      ⊎ ((a.status ≢ 401)
          × (w' ≡ w)
          × (((200 ≤ a.status)
                × (a.status < 300)
                × (r ≡ (if a.content_type_json then a.json else a.text)))
              ⊎ (((a.status < 200) ⊎ (300 ≤ a.status)) × (r ≡ err (failure (error_text a))))))

module _ {Q B : Type 0} (auth : AuthConfig) (codec : Json Person) (browser : Browser)
    (url : String → Option Q → String) (show : ℕ → String) (service : ApiService) where
  -- A session with a token that is not empty sends it as `Bearer`. Without headers of its own, a caller
  -- sends the default ones and `Content-Type: application/json`; headers of the caller replace all of
  -- these, the content type included.
  pub fetch_call-headers :
      (method endpoint token name : String) (config : RequestConfig Q B) (w : Window)
      → w.session.token ≡ some token
      → token ≢ ""
      → name ≢ "Authorization"
      → let c = fetch_call auth codec browser url show service method endpoint config w in
        (c.headers "Authorization" ≡ some (template "Bearer " token ""))
        × IsSent service config.headers name (c.headers name)
  unfolding fetch_call
  fetch_call-headers method endpoint token name config w has ne other =
      let full : truthy token ≡ true = ground (arith, eq_iff token "") in
      let differs : ("Authorization" == name) ≡ false =
        ground (arith, eq_iff "Authorization" name) in
      (rw (has, full) refl, rw (has, full, differs) (merged-IsSent service config name))
