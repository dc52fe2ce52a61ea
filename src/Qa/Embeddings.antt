-- ===== src/Qa/Embeddings.antt =====
-- The similarity and the mean of two embeddings (application/hybrid-search.use-case.ts). The numbers of
-- JavaScript with their operations are a parameter.
use public_nest_server.Base.{List, [], ◌∷◌, Bool, if◌then◌else◌}

pub record Numbers : Type 1 where
  pub Number : Type 0
  pub zero : Number
  pub nan : Number
  pub plus : Number → Number → Number
  pub times : Number → Number → Number
  pub over : Number → Number → Number
  pub sqrt : Number → Number
  pub two : Number
  pub is_zero : Number → Bool
  -- `>= HYDE_SIMILARITY_THRESHOLD`
  pub is_above_threshold : Number → Bool

module _ (numbers : Numbers) where
  open numbers use {Number, zero, nan, plus, times, over, sqrt, two, is_zero, is_above_threshold}

  abbrev pub Embedding : Type 0
  Embedding = List Number

  -- `b[0]` in arithmetic, and the rest; a number that is missing is `NaN` there
  abbrev pub head_or_nan : Embedding → Number
  head_or_nan [] = nan
  head_or_nan (x ∷ b) = x

  abbrev pub rest_of : Embedding → Embedding
  rest_of [] = []
  rest_of (x ∷ b) = b

  -- the loop, with `dot`, `normA` and `normB` before and after it
  unfoldable pub sums : Embedding → Embedding → Number × Number × Number → Number × Number × Number
  sums [] b totals = totals
  sums (x ∷ a) b (dot, norm_a, norm_b) =
      let y = head_or_nan b in
      sums a (rest_of b) (plus dot (times x y), plus norm_a (times x x), plus norm_b (times y y))

  unfoldable pub cosine_similarity : Embedding → Embedding → Number
  unfolding sums
  cosine_similarity a b =
      let (dot, norm_a, norm_b) = sums a b (zero, zero, zero) in
      let denom = times (sqrt norm_a) (sqrt norm_b) in
      if is_zero denom then zero else over dot denom

  -- `originalEmbedding.map((v, i) => (v + hydeEmbedding[i]) / 2)`
  unfoldable pub mean : Embedding → Embedding → Embedding
  mean [] hyde = []
  mean (v ∷ original) hyde = over (plus v (head_or_nan hyde)) two ∷ mean original (rest_of hyde)

  unfoldable pub with_hyde : Embedding → Embedding → Embedding
  unfolding cosine_similarity mean
  with_hyde original hyde =
      if is_above_threshold (cosine_similarity original hyde) then mean original hyde else original
