-- ===== src/Access/Password.antt =====
-- backend/app/core/security.py: `password_problems`.
use Prim.Native.Char.{code}
use Prim.Native.String.{String}
use appbi_integration.Base.{ℕ, Bool, true, false, ◌||◌, List, [], ◌∷◌, ◌++◌, ltb, str_eq, not}
use appbi_integration.Graph.Text.{strip, char_count}
use appbi_integration.Access.{Security}

abbrev pub min_password_length : ℕ
min_password_length = 12

pub data PasswordProblem : Type 0 where
  too_short one_case no_digit blank : PasswordProblem

unfoldable pub has_digit : Security → String → Bool
has_digit sec String.[] = false
has_digit sec (String.◌∷◌ c s) = sec.is_digit (code c) || has_digit sec s

abbrev pub problem_if : Bool → PasswordProblem → List PasswordProblem
problem_if true problem = problem ∷ []
problem_if false problem = []

-- `password_problems(raw)`
unfoldable pub password_problems : Security → String → List PasswordProblem
unfolding char_count has_digit strip
password_problems sec raw =
    problem_if (ltb (char_count raw) min_password_length) too_short
    ++ (problem_if (str_eq (sec.lower raw) raw || str_eq (sec.upper raw) raw) one_case
        ++ (problem_if (not (has_digit sec raw)) no_digit
            ++ problem_if (str_eq (strip raw) "") blank))

abbrev pub is_acceptable : List PasswordProblem → Bool
is_acceptable [] = true
is_acceptable (problem ∷ problems) = false
