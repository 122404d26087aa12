-- ===== src/Examples/Plan.antt =====
-- The choice of an index of a small table.
use auroradb.Prelude.{◌≡◌, refl, List, [], ◌∷◌, some, Bytes, codes, get_elem?}
use auroradb.Prelude.Tests.{equal}
use auroradb.Engine.Plan.{
  get_cols_index, first_index, prefix_index, starts_with, count_cols, count_col, covering_index,
}
use auroradb.Engine.Plan.Found.{Serves, get_cols_index-get_elem?}
use auroradb.Examples.Schema.{shops}

-- The columns of the first index in the other order: only the second search finds it.
abbrev wanted : List Bytes
wanted = codes "number" ∷ codes "city" ∷ []

wanted_index : get_cols_index shops wanted ≡ some (some 0)
unfolding get_cols_index first_index prefix_index starts_with count_cols count_col covering_index
    equal
wanted_index = refl

get_cols_index-get_elem?_example :
    (idx : List Bytes) × (get_elem? shops.indexes 0 ≡ some idx) × Serves wanted idx
get_cols_index-get_elem?_example = get_cols_index-get_elem? shops wanted 0 wanted_index
