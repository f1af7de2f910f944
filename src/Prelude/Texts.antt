-- ===== src/Prelude/Texts.antt =====
-- Membership, blankness and splitting of texts.
use Prim.Native.Nat.{ℕ, zero, suc, ◌+◌}
use mathlib.Core.Path.{◌≡◌, refl, ap}
use mathlib.Core.Logic.{inl, inr}
use mathlib.Core.Option.{Option, none, some}
use native.Mathlib.Omega.{arith}
use Prim.Native.Char.{code}
use Prim.Native.String.{String}
use mathlib.Core.Bool.{Bool, true, false, ◌&&◌, ◌||◌}
use mathlib.Core.List.{List, [], ◌∷◌}
use text.Mathlib.Text.{◌==◌ as str_eq}
use stellar_kraal_backend.Prelude.Tests.{leb, ◌==◌, if◌then◌else◌, Bool-cases}

-- The white space and line ends that `String.prototype.trim` removes.
abbrev pub is_space : ℕ → Bool
is_space c =
    leb 9 c && leb c 13
    || c == 32
    || c == 160
    || c == 0x1680
    || leb 0x2000 c && leb c 0x200a
    || c == 0x2028
    || c == 0x2029
    || c == 0x202f
    || c == 0x205f
    || c == 0x3000
    || c == 0xfeff

-- `s.trim().length === 0`
unfoldable pub is_blank : String → Bool
is_blank String.[] = true
is_blank (String.◌∷◌ c s) = is_space (code c) && is_blank s

unfoldable pub contains : String → List String → Bool
contains x [] = false
contains x (y ∷ ys) = str_eq y x || contains x ys

-- `new Set(xs).size !== xs.length`
unfoldable pub has_duplicates : List String → Bool
unfolding contains
has_duplicates [] = false
has_duplicates (x ∷ xs) = contains x xs || has_duplicates xs

unfoldable pub append : String → String → String
append String.[] t = t
append (String.◌∷◌ c s) t = String.◌∷◌ c (append s t)

-- `s.slice(0, n)`
unfoldable pub take_text : ℕ → String → String
take_text zero s = String.[]
take_text (suc n) String.[] = String.[]
take_text (suc n) (String.◌∷◌ c s) = String.◌∷◌ c (take_text n s)

abbrev pub is_colon : ℕ → Bool
is_colon c = c == 58

-- The first element of `s.split(':')`.
unfoldable pub before_colon : String → String
before_colon String.[] = String.[]
before_colon (String.◌∷◌ c s) =
    let rest = before_colon s in if is_colon (code c) then String.[] else String.◌∷◌ c rest

-- What follows the first colon, the other elements of `s.split(':')` joined again.
unfoldable pub after_colon : String → Option String
after_colon String.[] = none
after_colon (String.◌∷◌ c s) =
    let rest = after_colon s in if is_colon (code c) then some s else rest

unfoldable pub has_colon : String → Bool
has_colon String.[] = false
has_colon (String.◌∷◌ c s) = is_colon (code c) || has_colon s

pub before-append :
    (s t : String)
    → has_colon s ≡ false
    → (before_colon (append s (append ":" t)) ≡ s)
      × (after_colon (append s (append ":" t)) ≡ some t)
unfolding before_colon after_colon append has_colon
before-append String.[] t h = (refl, refl)
before-append (String.◌∷◌ c s) t h = elim (Bool-cases (is_colon (code c))) [
  | inl colon ↦ ground arith
  | inr other ↦
      let (b, a) = before-append s t (ground arith) in (rw other (ap (String.◌∷◌ c) b), rw other a)
]

pub before_colon-whole : (s : String) → has_colon s ≡ false → before_colon s ≡ s
unfolding before_colon has_colon
before_colon-whole String.[] h = refl
before_colon-whole (String.◌∷◌ c s) h = elim (Bool-cases (is_colon (code c))) [
  | inl colon ↦ ground arith
  | inr other ↦ rw other (ap (String.◌∷◌ c) (before_colon-whole s (ground arith)))
]

pub has_colon-take_text :
    (n : ℕ) (s : String) → has_colon s ≡ false → has_colon (take_text n s) ≡ false
unfolding has_colon take_text
has_colon-take_text zero s h = refl
has_colon-take_text (suc n) String.[] h = refl
has_colon-take_text (suc n) (String.◌∷◌ c s) h = ground (arith, has_colon-take_text n s)

-- `s.trim()`
unfoldable pub trim_start : String → String
trim_start String.[] = String.[]
trim_start (String.◌∷◌ c s) =
    let rest = trim_start s in if is_space (code c) then rest else String.◌∷◌ c s

unfoldable pub trim_end : String → String
unfolding is_blank
trim_end String.[] = String.[]
trim_end (String.◌∷◌ c s) =
    let rest = trim_end s in if is_blank (String.◌∷◌ c s) then String.[] else String.◌∷◌ c rest

unfoldable pub trim : String → String
unfolding trim_start trim_end
trim s = trim_end (trim_start s)

-- What follows a prefix, if the text starts with it.
unfoldable pub drop_prefix : String → String → Option String
drop_prefix String.[] s = some s
drop_prefix (String.◌∷◌ p ps) String.[] = none
drop_prefix (String.◌∷◌ p ps) (String.◌∷◌ c s) =
    let rest = drop_prefix ps s in if code p == code c then rest else none

-- `s.toLowerCase()` of an ASCII text, as the codes of its characters.
unfoldable pub lower_codes : String → List ℕ
lower_codes String.[] = []
lower_codes (String.◌∷◌ c s) =
    (if leb 65 (code c) && leb (code c) 90 then code c + 32 else code c) ∷ lower_codes s

unfoldable pub starts_with : List ℕ → List ℕ → Bool
starts_with [] cs = true
starts_with (p ∷ ps) [] = false
starts_with (p ∷ ps) (c ∷ cs) = p == c && starts_with ps cs

-- `s.includes(p)`
unfoldable pub includes : List ℕ → List ℕ → Bool
unfolding starts_with
includes p [] = starts_with p []
includes p (c ∷ cs) = starts_with p (c ∷ cs) || includes p cs
