-- ===== src/Common/Tests.antt =====
-- The tests of arrays on small arrays.
use public_nest_server.Base.{◌≡◌, refl, List, [], ◌∷◌, String, true}
use public_nest_server.Common.Arrays.{added_to, has_common_elements}

abbrev twice : List String
twice = "a" ∷ "a" ∷ []

abbrev other : List String
other = "b" ∷ []

-- No element is common, and the test says that one is.
nothing_common : has_common_elements twice other ≡ true
unfolding has_common_elements added_to
nothing_common = refl
