-- ===== src/Gateway/Tokens.antt =====
-- `isValidTokenFormat` of api-gateway-auth/src/modules/auth/auth.service.ts, over code points.
pub mod Format
use Prim.Native.String.{[], ◌∷◌}
use synkro.Base.{
  ℕ, String, Char, code, Bool, true, false, ◌&&◌, ◌||◌, List, leb, eqb, every, length, not,
  if◌then◌else◌,
}

-- The class `[A-Za-z0-9_-]`; the flag `i` adds nothing to it.
abbrev pub is_base64url : ℕ → Bool
is_base64url c =
    leb b'A' c && leb c b'Z'
    || leb b'a' c && leb c b'z'
    || leb b'0' c && leb c b'9'
    || eqb c b'_'
    || eqb c b'-'

abbrev pub every_char : (ℕ → Bool) → String → Bool
every_char p [] = true
every_char p (c ∷ s) = p (code c) && every_char p s

abbrev pub is_empty : String → Bool
is_empty [] = true
is_empty (c ∷ s) = false

-- `/^[A-Za-z0-9_-]+$/i.test(part)`
abbrev pub is_part : String → Bool
is_part s = not (is_empty s) && every_char is_base64url s

-- `[c + parts[0], ...parts.slice(1)]`
abbrev pub push_head : Char → List String → List String
push_head c List.[] = List.◌∷◌ (c ∷ []) List.[]
push_head c (List.◌∷◌ p ps) = List.◌∷◌ (c ∷ p) ps

-- `token.split('.')`
unfoldable pub split_dots : String → List String
split_dots [] = List.◌∷◌ [] List.[]
split_dots (c ∷ s) =
    let rest = split_dots s in if eqb (code c) b'.' then List.◌∷◌ [] rest else push_head c rest

unfoldable pub is_valid_token_format : String → Bool
unfolding split_dots
is_valid_token_format token =
    let parts = split_dots token in
    if not (eqb (length parts) 3) then false else every is_part parts
