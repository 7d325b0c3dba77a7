-- ===== src/Tests/Clock.antt =====
-- Tests of the logical clock (clock.c, node.c).
use round.Common.{none, some, List, [], ◌∷◌, Option}
use round.Common.Int.{ℤ, pos}

abbrev messages : List (Option ℤ)
messages = some (pos 7) ∷ none ∷ some (pos 3) ∷ []
