-- ===== src/Schedules/Parse.antt =====
-- Python's `int(x)` and `split(":", 1)`, as backend/app/services/schedules.py uses them. Underscores
-- between digits and digits that are not ASCII are left out.
use Prim.Native.Char.{code}
use Prim.Native.String.{String}
use appbi_integration.Base.{
  ℕ, zero, suc, ◌+◌, ◌-◌, ◌*◌, true, false, ◌&&◌, leb, ◌==◌, Option, none, some, if◌then◌else◌,
}
use appbi_integration.Json.{Json, null, boolean, num, neg, str, arr, obj}
use appbi_integration.Graph.Text.{strip}

-- An integer, of which only one that is not negative has its value kept.
pub data Number : Type 0 where
  below : Number
  at : ℕ → Number

unfoldable pub digits_from : ℕ → String → Option ℕ
digits_from total String.[] = some total
digits_from total (String.◌∷◌ c s) =
    let rest = digits_from (total * 10 + (code c - 48)) s in
    if leb 48 (code c) && leb (code c) 57 then rest else none

unfoldable pub unsigned : String → Option ℕ
unfolding digits_from
unsigned String.[] = none
unsigned (String.◌∷◌ c s) = digits_from 0 (String.◌∷◌ c s)

abbrev pub negated : Option ℕ → Option Number
negated none = none
negated (some zero) = some (at 0)
negated (some (suc n)) = some below

abbrev pub counted : Option ℕ → Option Number
counted none = none
counted (some n) = some (at n)

unfoldable pub read_signed : String → Option Number
unfolding unsigned
read_signed String.[] = none
read_signed (String.◌∷◌ c s) =
    if code c == b'-'
    then negated (unsigned s)
    else if code c == b'+'
    then counted (unsigned s)
    else counted (unsigned (String.◌∷◌ c s))

-- `int(text)`, a ValueError as `none`
unfoldable pub read_int : String → Option Number
unfolding read_signed strip
read_int s = read_signed (strip s)

-- `int(x)` of a JSON value that is no float; a TypeError is `none` as well
unfoldable pub int_of : Json → Option Number
unfolding read_int
int_of null = none
int_of (boolean true) = some (at 1)
int_of (boolean false) = some (at 0)
int_of (num n) = some (at n)
int_of (neg n) = some below
int_of (str s) = read_int s
int_of (arr items) = none
int_of (obj fields) = none

abbrev pub behind : (String → String) → Option (String × String) → Option (String × String)
behind f none = none
behind f (some (head, tail)) = some (f head, tail)

-- `a, b = text.split(":", 1)`
unfoldable pub split_colon : String → Option (String × String)
split_colon String.[] = none
split_colon (String.◌∷◌ c s) =
    let rest = split_colon s in
    if code c == b':' then some (String.[], s) else behind (λ t. String.◌∷◌ c t) rest
