-- ===== src/Examples/Scan.antt =====
-- A scanner at the end of a tree of one leaf.
use auroradb.Prelude.{◌≡◌, refl, true, false, [], ◌∷◌, arith}
use auroradb.Prelude.Compare.{compare_bytes}
use auroradb.Prelude.Outcome.{runs_on}
use auroradb.Types.{empty_record, tdef_meta}
use auroradb.Storage.Tree.Iterator.{Level}
use auroradb.Storage.Node.Entries.Read.{Reads, Built-Reads}
use auroradb.Storage.Node.Entries.Ordered.{pair}
use auroradb.Storage.Transaction.{Kvtx, new_kvtx}
use auroradb.Tables.Scanner.{Scanner, not_behind, pass_bound}
use auroradb.Tables.Scanner.Stuck.{AtEnd, pass_bound_stuck}
use auroradb.Examples.Pages.{store}
use auroradb.Examples.Entries.{leaf, leaf-IsNode, key, val}

abbrev last : Level
last = record { page = leaf; pos = 1 }

-- The rows behind the key of the last entry.
abbrev scan : Scanner
scan = record {
  iter = record { path = last ∷ []; valid = true };
  rec1 = empty_record;
  rec2 = empty_record;
  tdef = tdef_meta;
  include1 = false;
  include2 = true;
  index = 0;
  key1 = key;
  key2 = 255 ∷ [];
}

abbrev tx : Kvtx
tx = record new_kvtx { snapshot_root = 1 }

last_entry : Reads leaf 1 (pair key val)
last_entry = Built-Reads leaf 2 (pair [] [] ∷ []) [] (pair key val) leaf-IsNode.1.built

scan-AtEnd : AtEnd scan.iter last key val
scan-AtEnd = record {
  n = 2;
  path = refl;
  count = leaf-IsNode.1.built.count;
  last = refl;
  small = omega arith;
  key_read = last_entry.key;
  val_read = last_entry.val;
}

pass_bound_stuck_example : pass_bound 1 store tx 1000 scan ≡ runs_on
unfolding not_behind compare_bytes
pass_bound_stuck_example =
    pass_bound_stuck 1 store tx 1000 scan last key val (omega arith) scan-AtEnd refl refl
