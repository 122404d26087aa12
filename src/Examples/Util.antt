-- ===== src/Examples/Util.antt =====
-- Runs of the helpers of util/util.go.
use auroradb.Prelude.{◌≡◌, [], ◌∷◌}
use auroradb.Util.{int_slice_remove}
use auroradb.Util.Remove.{without, int_slice_remove-without}

int_slice_remove-without_example :
    int_slice_remove 3 (3 ∷ 3 ∷ 5 ∷ 3 ∷ []) ≡ without 3 (3 ∷ 3 ∷ 5 ∷ 3 ∷ [])
int_slice_remove-without_example = int_slice_remove-without 3 (3 ∷ 3 ∷ 5 ∷ 3 ∷ [])
