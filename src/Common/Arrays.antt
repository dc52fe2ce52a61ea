-- ===== src/Common/Arrays.antt =====
-- The methods that libs/common/src/extension/array.extension.ts adds to arrays, on arrays of texts,
-- which `Set` and `===` compare by their characters.
pub mod Laws
use public_nest_server.Base.{
  ℕ, ◌+◌, ◌==◌, List, [], ◌∷◌, ◌++◌, String, Bool, not, ◌&&◌, ltb, length, if◌then◌else◌,
}
use public_nest_server.Llm.Models.{is_in}

-- The elements of a `Set` to which the array was added, in order, less those that it had.
unfoldable pub added_to : List String → List String → List String
added_to seen [] = []
added_to seen (x ∷ xs) =
    let same = added_to seen xs in
    let more = added_to (x ∷ seen) xs in if is_in x seen then same else x ∷ more

abbrev pub distinct : List String → List String
distinct xs = added_to [] xs

unfoldable pub has_duplicates : List String → Bool
has_duplicates xs = ltb (length (distinct xs)) (length xs)

unfoldable pub has_common_elements : List String → List String → Bool
has_common_elements xs items = ltb (length (distinct (xs ++ items))) (length xs + length items)
