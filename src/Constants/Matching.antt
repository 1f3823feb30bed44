-- ===== src/Constants/Matching.antt =====
-- alws/constants.py: BeholderMatchMethod, ReleasePackageTrustness and LOWEST_PRIORITY, with
-- `_beholder_matched_to_priority` of alws/release_planner.py.
use albs_web_server.Prelude.{ℕ, String, List, [], ◌∷◌, any, ◌==◌, string_eq, if◌then◌else◌}

unfoldable pub green : List String
green = "exact" ∷ []

unfoldable pub yellow : List String
yellow = "closest" ∷ "name_version" ∷ "name_only" ∷ []

abbrev pub lowest_priority : ℕ
lowest_priority = 10

-- The integer values of ReleasePackageTrustness that the release planner uses.
abbrev pub maximum_trustness : ℕ
maximum_trustness = 1

abbrev pub medium_trustness : ℕ
medium_trustness = 2

unfoldable pub beholder_matched_to_priority : String → ℕ
unfolding green yellow
beholder_matched_to_priority matched =
    if any (λ m. m == matched) green
    then maximum_trustness
    else if any (λ m. m == matched) yellow
    then medium_trustness
    else lowest_priority
