-- ===== src/Prelude/Numerals.antt =====
-- `parseInt(text, 10)`.
use Prim.Native.Nat.{ℕ, ◌+◌, ◌-◌, ◌*◌}
use Prim.Native.Char.{code}
use Prim.Native.String.{String}
use mathlib.Core.Bool.{Bool, ◌&&◌}
use mathlib.Core.Option.{Option, none, some}
use stellar_kraal_backend.Prelude.Tests.{leb, ◌==◌, if◌then◌else◌}
use stellar_kraal_backend.Prelude.Texts.{is_space}

pub data Integer : Type 0 where
  nan : Integer
  negative natural : ℕ → Integer

abbrev pub is_digit : ℕ → Bool
is_digit c = leb 48 c && leb c 57

-- The digits at the start of the text, continuing a number; `none` before the first digit.
abbrev pub digits_after : Option ℕ → String → Option ℕ
digits_after read String.[] = read
digits_after none (String.◌∷◌ c s) =
    let rest = digits_after (some (code c - 48)) s in if is_digit (code c) then rest else none
digits_after (some n) (String.◌∷◌ c s) =
    let rest = digits_after (some (n * 10 + (code c - 48))) s in
    if is_digit (code c) then rest else some n

abbrev pub as_natural : Option ℕ → Integer
as_natural none = nan
as_natural (some n) = natural n

abbrev pub as_negative : Option ℕ → Integer
as_negative none = nan
as_negative (some n) = negative n

abbrev pub signed : String → Integer
signed String.[] = nan
signed (String.◌∷◌ c s) =
    if code c == 45
    then as_negative (digits_after none s)
    else if code c == 43
    then as_natural (digits_after none s)
    else as_natural (digits_after none (String.◌∷◌ c s))

unfoldable pub parse_int : String → Integer
parse_int String.[] = nan
parse_int (String.◌∷◌ c s) =
    let rest = parse_int s in if is_space (code c) then rest else signed (String.◌∷◌ c s)
