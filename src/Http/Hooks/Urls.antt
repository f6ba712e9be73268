-- ===== src/Http/Hooks/Urls.antt =====
-- The requests that the hooks make.
use Prim.Native.String
use Prim.Native.String.{[], ◌∷◌}
use synkro.Base.{String, Failure, Result, ok, err, Option, none, some}
use synkro.Http.Hooks.Described.{Described}

-- What a method keeps of its call's result.
abbrev pub error_of : {B : Type 0} → Result B → Option Failure
error_of (ok b) = none
error_of (err e) = some e

-- the text of the data, where there is some
abbrev pub body_for : {D B : Type 0} → (D → B) → Option D → Option B
body_for stringify none = none
body_for stringify (some d) = some (stringify d)
