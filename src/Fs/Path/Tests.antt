-- ===== src/Fs/Path/Tests.antt =====
-- A path with repeated slashes.
use os_exp.Base.{ℕ, List, [], ◌∷◌, arith}
use os_exp.Fs.Path.{slash, skipelem}
use os_exp.Fs.Path.Skip.{IsText, SkipResult, skipelem_lem}

-- "//a//bb"
abbrev sample : List ℕ
sample = slash ∷ slash ∷ b'a' ∷ slash ∷ slash ∷ b'b' ∷ b'b' ∷ []

abbrev sample_name : ℕ → ℕ
sample_name i = 0

sample-IsText : IsText sample
sample-IsText = (
  ground arith,
  (
    ground arith,
    (ground arith, (ground arith, (ground arith, (ground arith, (ground arith, tt))))),
  ),
)

skipelem_lem_example : SkipResult sample (skipelem sample sample_name)
skipelem_lem_example = skipelem_lem sample sample_name sample-IsText
