-- ===== src/Base/Text.antt =====
-- Python's methods of `str` that the program uses, character by character.
use Prim.Native.Char.{Char, code}
use Prim.Native.String.{String, [], ◌∷◌}
use mathlib.Core.Bool.{Bool, true, false, ◌&&◌, ◌||◌}
use mathlib.Core.List.{List, [], ◌∷◌, ◌++◌}
use mathlib.Core.Option.{Option, none, some}
use mathlib.Core.Path.{◌≡◌, refl, sym, ap, ◌∙◌}
use native.Mathlib.Omega.{arith}
use Prim.Native.Nat.{ℕ}
use mathlib.Core.Logic.{◌≢◌, inl, inr}
use text.Mathlib.TextEquality.{Char-path, eq_iff}
use edge_serverless_box.Base.Tests.{leb, ◌==◌, if◌then◌else◌, Bool-cases, str_eq}

-- The characters that `strip` removes, by their code points.
unfoldable pub is_space : ℕ → Bool
is_space c =
    (leb 9 c && leb c 13)
    || (leb 28 c && leb c 32)
    || c == 133
    || c == 160
    || c == 5760
    || (leb 8192 c && leb c 8202)
    || c == 8232
    || c == 8233
    || c == 8239
    || c == 8287
    || c == 12288

-- `s + t`
abbrev pub append : String → String → String
append [] t = t
append (c ∷ s) t = c ∷ append s t

abbrev pub is_empty : String → Bool
is_empty [] = true
is_empty (c ∷ s) = false

-- `c in s`
unfoldable pub has_char : ℕ → String → Bool
has_char c [] = false
has_char c (d ∷ s) = code d == c || has_char c s

unfoldable pub lstrip : String → String
lstrip [] = ""
lstrip (c ∷ s) = let rest = lstrip s in if is_space (code c) then rest else c ∷ s

unfoldable pub rstrip : String → String
rstrip [] = ""
rstrip (c ∷ s) = let rest = rstrip s in if is_empty rest && is_space (code c) then "" else c ∷ rest

unfoldable pub strip : String → String
unfolding lstrip rstrip is_space
strip s = rstrip (lstrip s)

abbrev pub prepend : Char → List String → List String
prepend c [] = (c ∷ []) ∷ []
prepend c (x ∷ xs) = (c ∷ x) ∷ xs

-- `s.split(c)`
unfoldable pub split : ℕ → String → List String
split c [] = "" ∷ []
split c (d ∷ s) = let rest = split c s in if code d == c then "" ∷ rest else prepend d rest

-- `sep.join(parts)`, for a separator of one character
unfoldable pub join : Char → List String → String
join c [] = ""
join c (x ∷ []) = x
join c (x ∷ y ∷ ys) = let rest = join c (y ∷ ys) in append x (c ∷ rest)

-- `s.split(c, 1)` of a text that has the character, as the two parts
unfoldable pub split_once : ℕ → String → Option (String × String)
split_once c [] = none
split_once c (d ∷ s) =
    let rest = split_once c s in if code d == c then some ("", s) else extend d rest
  where
    extend : Char → Option (String × String) → Option (String × String)
    extend d none = none
    extend d (some (x, y)) = some (d ∷ x, y)

-- A text in front of a separator is the first part.
pub split-before :
    (c : ℕ) (sep : Char) (x y : String)
    → (code sep == c) ≡ true
    → has_char c x ≡ false
    → split c (append x (sep ∷ y)) ≡ x ∷ split c y
unfolding split has_char
split-before c sep [] y is_sep free = ground arith
split-before c sep (d ∷ x) y is_sep free = ground (arith, split-before c sep x y is_sep)

pub split-free : (c : ℕ) (x : String) → has_char c x ≡ false → split c x ≡ x ∷ []
unfolding split has_char
split-free c [] free = refl
split-free c (d ∷ x) free = ground (arith, split-free c x)

prepend-append :
    (d : Char) (xs : List String) (z : String)
    → xs ≢ []
    → prepend d (xs ++ z ∷ []) ≡ prepend d xs ++ z ∷ []
prepend-append d [] z ne = absurd (ne refl)
prepend-append d (x ∷ xs) z ne = refl

prepend-nonempty : (d : Char) (xs : List String) → prepend d xs ≢ []
prepend-nonempty d [] = λ e. cc
prepend-nonempty d (x ∷ xs) = λ e. cc

pub split-nonempty : (c : ℕ) (s : String) → split c s ≢ []
unfolding split
split-nonempty c [] = λ e. cc
split-nonempty c (d ∷ s) = ground (arith, prepend-nonempty d (split c s))

-- A text without the separator, behind one, is the last part.
pub split-after :
    (c : ℕ) (sep : Char) (x y : String)
    → (code sep == c) ≡ true
    → has_char c y ≡ false
    → split c (append x (sep ∷ y)) ≡ split c x ++ y ∷ []
unfolding split
split-after c sep [] y is_sep free = rw is_sep (rw (split-free c y free))
split-after c sep (d ∷ x) y is_sep free = elim (Bool-cases (code d == c)) [
  | inl here ↦ rw here (ap (λ (xs : List String). "" ∷ xs) (split-after c sep x y is_sep free))
  | inr there ↦ rw there (
      ap (prepend d) (split-after c sep x y is_sep free)
      ∙ prepend-append d (split c x) y (split-nonempty c x))
]

join-prepend :
    (sep d : Char) (xs : List String) → xs ≢ [] → join sep (prepend d xs) ≡ d ∷ join sep xs
unfolding join
join-prepend sep d [] ne = absurd (ne refl)
join-prepend sep d (x ∷ []) ne = refl
join-prepend sep d (x ∷ y ∷ ys) ne = refl

join-empty : (sep : Char) (xs : List String) → xs ≢ [] → join sep ("" ∷ xs) ≡ sep ∷ join sep xs
unfolding join
join-empty sep [] ne = absurd (ne refl)
join-empty sep (x ∷ xs) ne = refl

-- The parts joined again are the text.
pub join-split : (sep : Char) (s : String) → join sep (split (code sep) s) ≡ s
unfolding split join
join-split sep [] = refl
join-split sep (d ∷ s) = elim (Bool-cases (code d == code sep)) [
  | inl here ↦ rw here (
      join-empty sep (split (code sep) s) (split-nonempty (code sep) s)
      ∙ ap (λ t. sep ∷ t) (join-split sep s)
      ∙ ap (λ e. e ∷ s) (sym (Char-path d sep (ground arith))))
  | inr there ↦ rw there (
      join-prepend sep d (split (code sep) s) (split-nonempty (code sep) s)
      ∙ ap (λ t. d ∷ t) (join-split sep s))
]

-- What ends a line.
unfoldable pub is_line_break : ℕ → Bool
is_line_break c =
    (leb 10 c && leb c 13) || (leb 28 c && leb c 30) || c == 133 || c == 8232 || c == 8233

-- `s.splitlines()`
unfoldable pub splitlines : String → List String
unfolding is_line_break
splitlines [] = []
splitlines (c ∷ []) = if is_line_break (code c) then "" ∷ [] else (c ∷ []) ∷ []
splitlines (c ∷ d ∷ s) =
    let rest = splitlines (d ∷ s) in
    let behind = splitlines s in
    if code c == 13 && code d == 10
    then "" ∷ behind
    else if is_line_break (code c)
    then "" ∷ rest
    else prepend c rest

-- A text with a character is not the empty text.
pub str_eq-nonempty : (s : String) → is_empty s ≡ false → str_eq s "" ≡ false
str_eq-nonempty s full = elim (Bool-cases (str_eq s "")) [
  | inl same ↦ absurd (clash (ap is_empty ((eq_iff s "").0 same)))
  | inr apart ↦ apart
]
  where
    clash : is_empty s ≡ true → ⊥
    clash e = ground arith
