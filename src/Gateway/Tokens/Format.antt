-- ===== src/Gateway/Tokens/Format.antt =====
-- The tokens that `isValidTokenFormat` accepts: three parts of the base64url alphabet, none empty,
-- joined by dots.
use Prim.Native.String.{◌++◌, [], ◌∷◌}
use mathlib.Core.Path.{ap₂}
use text.Mathlib.TextEquality.{Char-path}
use text.Mathlib.TextLemmas.{nil-append, cons-append, cons-ne-nil}
use synkro.Base.{
  String, Char, code, Bool, true, false, List, ◌≡◌, ◌≢◌, ◌↔◌, refl, sym, ap, ◌∙◌, arith, inl, inr,
  eqb, every, length, not, if◌then◌else◌, Bool-cases,
}
use synkro.Gateway.Tokens.{
  is_base64url, every_char, is_part, push_head, split_dots, is_valid_token_format,
}

-- A text that is not empty and holds only letters, digits, `_` and `-`.
abbrev pub IsPart : String → Type 0
IsPart s = (s ≢ "") × (every_char is_base64url s ≡ true)

-- A compact serialisation: header, payload and signature.
abbrev pub IsCompact : String → Type 0
IsCompact token =
    (a : String) × (b : String) × (c : String) × (token ≡ a ++ ("." ++ (b ++ ("." ++ c))))
    × IsPart a
    × IsPart b
    × IsPart c

abbrev pub no_dot : String → Bool
no_dot = every_char (λ c. not (eqb c b'.'))

part-no_dot : (s : String) → every_char is_base64url s ≡ true → no_dot s ≡ true
part-no_dot [] h = refl
part-no_dot (c ∷ s) h = ground (arith, part-no_dot s)

split_dots-none : (s : String) → no_dot s ≡ true → split_dots s ≡ List.◌∷◌ s List.[]
unfolding split_dots
split_dots-none [] h = refl
split_dots-none (c ∷ s) h = ground (arith, split_dots-none s)

abbrev dot : Char
dot = "."

dot-append : (s : String) → "." ++ s ≡ String.◌∷◌ dot s
dot-append s = cons-append dot [] s ∙ ap (String.◌∷◌ dot) (nil-append s)

split_dots-dot :
    (a s : String) → no_dot a ≡ true → split_dots (a ++ ("." ++ s)) ≡ List.◌∷◌ a (split_dots s)
unfolding split_dots
split_dots-dot [] s h = rw (nil-append, dot-append s)
split_dots-dot (c ∷ a) s h = rw cons-append (ground (arith, split_dots-dot a s))

-- `parts.join('.')`
abbrev join_dots : List String → String
join_dots List.[] = ""
join_dots (List.◌∷◌ p List.[]) = p
join_dots (List.◌∷◌ p (List.◌∷◌ q qs)) = p ++ ("." ++ join_dots (List.◌∷◌ q qs))

join_dots-push_head :
    (c : Char) (ps : List String) → join_dots (push_head c ps) ≡ String.◌∷◌ c (join_dots ps)
join_dots-push_head c List.[] = refl
join_dots-push_head c (List.◌∷◌ p List.[]) = refl
join_dots-push_head c (List.◌∷◌ p (List.◌∷◌ q qs)) = cons-append c p _

push_head-ne-nil : (c : Char) (ps : List String) → push_head c ps ≢ List.[]
push_head-ne-nil c List.[] e = cc
push_head-ne-nil c (List.◌∷◌ p ps) e = cc

split_dots-ne-nil : (s : String) → split_dots s ≢ List.[]
unfolding split_dots
split_dots-ne-nil [] e = cc
split_dots-ne-nil (c ∷ s) e = elim (Bool-cases (eqb (code c) b'.')) [
  | inl is_dot ↦ cc (rw is_dot at e)
  | inr other ↦ push_head-ne-nil c (split_dots s) (rw other at e)
]

join_dots-nil :
    (ps : List String) → ps ≢ List.[] → join_dots (List.◌∷◌ "" ps) ≡ String.◌∷◌ dot (join_dots ps)
join_dots-nil List.[] ne = absurd (ne refl)
join_dots-nil (List.◌∷◌ q qs) ne = nil-append _ ∙ dot-append _

join-split : (s : String) → join_dots (split_dots s) ≡ s
unfolding split_dots
join-split [] = refl
join-split (c ∷ s) = elim (Bool-cases (eqb (code c) b'.')) [
  | inl is_dot ↦ rw is_dot (
      join_dots-nil (split_dots s) (split_dots-ne-nil s)
      ∙ ap₂ String.◌∷◌ (Char-path dot c (ground arith)) (join-split s))
  | inr other ↦ rw other (join_dots-push_head c (split_dots s) ∙ ap (String.◌∷◌ c) (join-split s))
]

is_part_iff : (s : String) → (is_part s ≡ true) ↔ IsPart s
is_part_iff [] = (λ h. cc, λ h. absurd (h.0 refl))
is_part_iff (c ∷ s) = (λ h. (cons-ne-nil c s, h), λ h. h.1)

-- The test on the parts, as the function makes it.
abbrev three_parts : List String → Bool
three_parts parts = if not (eqb (length parts) 3) then false else every is_part parts

three_parts_sound :
    (ps : List String) (token : String)
    → join_dots ps ≡ token
    → three_parts ps ≡ true
    → IsCompact token
three_parts_sound (List.◌∷◌ a (List.◌∷◌ b (List.◌∷◌ c List.[]))) token e h = (
  a,
  b,
  c,
  sym e,
  (is_part_iff a).0 (ground arith),
  (is_part_iff b).0 (ground arith),
  (is_part_iff c).0 (ground arith),
)
three_parts_sound List.[] token e h = cc
three_parts_sound (List.◌∷◌ a List.[]) token e h = cc
three_parts_sound (List.◌∷◌ a (List.◌∷◌ b List.[])) token e h = cc
three_parts_sound (List.◌∷◌ a (List.◌∷◌ b (List.◌∷◌ c (List.◌∷◌ d ps)))) token e h =
    absurd (ground arith)

split_dots-compact :
    (a b c : String)
    → IsPart a
    → IsPart b
    → IsPart c
    → split_dots (a ++ ("." ++ (b ++ ("." ++ c)))) ≡ List.◌∷◌ a (List.◌∷◌ b (List.◌∷◌ c List.[]))
split_dots-compact a b c pa pb pc = rw (
  split_dots-dot a (b ++ ("." ++ c)) (part-no_dot a pa.1),
  split_dots-dot b c (part-no_dot b pb.1),
  split_dots-none c (part-no_dot c pc.1),
)

-- `isValidTokenFormat` accepts exactly the compact serialisations.
pub is_valid_token_format_iff :
    (token : String) → (is_valid_token_format token ≡ true) ↔ IsCompact token
unfolding is_valid_token_format
is_valid_token_format_iff token = (
  λ h. three_parts_sound (split_dots token) token (join-split token) h,
  λ (a, b, c, e, pa, pb, pc). rw (
    e,
    split_dots-compact a b c pa pb pc,
    (is_part_iff a).1 pa,
    (is_part_iff b).1 pb,
    (is_part_iff c).1 pc,
  ),
)

pub format-ne-nil : (token : String) → is_valid_token_format token ≡ true → token ≢ ""
unfolding is_valid_token_format
format-ne-nil token format e = cc (rw e at format)
