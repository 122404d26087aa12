-- ===== src/Examples/Entries.antt =====
-- Leaves as lists of entries, and what the operations on them make.
use auroradb.Prelude.{
  ℕ, ◌*◌, ◌≡◌, ◌⊎◌, refl, ◌∙◌, List, [], ◌∷◌, ◌++◌, none, some, Bytes, codes, equal, if◌then◌else◌,
  arith,
}
use auroradb.Prelude.Compare.{compare_bytes}
use auroradb.Storage.Node.{BNode, make, page_size, bnode_leaf, node_lookup_le}
use auroradb.Storage.Node.Ranges.{node_append_range, node_merge}
use auroradb.Storage.Node.Entries.{Entry, total, Built}
use auroradb.Storage.Node.Entries.Append.{node_append_kv-Built}
use auroradb.Storage.Node.Entries.Range.{node_append_range-Built}
use auroradb.Storage.Node.Entries.Part.{Extends}
use auroradb.Storage.Node.Entries.Write.{write_entries, ReadsAll, write_entries-ReadsAll}
use auroradb.Storage.Node.Entries.Leaf.{IsNode, header_lem}
use auroradb.Storage.Node.Entries.Update.{node_merge-IsNode, extended-IsNode}
use auroradb.Storage.Node.Entries.Ordered.{pair, Ascending, insert_entry}
use auroradb.Storage.Tree.{insert_leaf, delete_leaf, get_val_at}
use auroradb.Storage.Tree.Leaf.{insert_leaf-IsNode}
use auroradb.Storage.Tree.Leaf.Delete.{Deleted, delete_leaf-IsNode}
use auroradb.Storage.Tree.Refine.{get_val_at-insert_leaf, get_val_at-delete_leaf}
use auroradb.Storage.Transaction.{pending_store, no_pages}

abbrev pub key : Bytes
key = codes "k"

abbrev pub val : Bytes
val = codes "v"

-- The entries of a new tree's leaf.
abbrev entries : List Entry
entries = pair [] [] ∷ pair key val ∷ []

entries-Ascending : Ascending entries
unfolding Ascending compare_bytes
entries-Ascending = ((refl, tt), (tt, tt))

-- A leaf with these entries.
pub leaf-IsNode : (b : BNode) × IsNode b bnode_leaf entries
unfolding total
leaf-IsNode =
    let (b0, w0, s0, t0, h0) =
      header_lem (make page_size) bnode_leaf 2 (omega arith) (omega arith) (omega arith) in
    let (b1, w1, r1) =
      node_append_kv-Built b0 2 [] (pair [] []) h0 (omega arith) (omega arith)
        (omega (arith, s0)) in
    let (b2, w2, r2) =
      node_append_kv-Built b1 2 (pair [] [] ∷ []) (pair key val) r1.built (omega arith)
        (omega arith) (omega (arith, s0, r1.size)) in
    (
      b2,
      extended-IsNode b0 b2 bnode_leaf entries t0 (record {
        size = r2.size ∙ r1.size;
        type = λ i l u. r2.type i l u ∙ r1.type i l u;
        built = r2.built;
      }),
    )

abbrev pub leaf : BNode
leaf = leaf-IsNode.0

insert_leaf-IsNode_example :
    (idx : ℕ) × (b' : BNode) × (node_lookup_le leaf (codes "j") ≡ some idx)
    × (insert_leaf leaf idx (codes "j") val ≡ some b')
    × (b'.size ≡ 2 * page_size)
    × IsNode b' bnode_leaf (insert_entry (codes "j") val entries)
unfolding total
insert_leaf-IsNode_example =
    insert_leaf-IsNode leaf (codes "j") val entries leaf-IsNode.1 entries-Ascending (omega arith)
      (omega arith)

delete_leaf-IsNode_example :
    (idx : ℕ) × (node_lookup_le leaf key ≡ some idx) × Deleted leaf idx key entries
unfolding total
delete_leaf-IsNode_example =
    delete_leaf-IsNode leaf key entries leaf-IsNode.1 entries-Ascending (omega arith) (omega arith)

get_val_at-insert_leaf_example :
    (idx : ℕ) × (b' : BNode) × (node_lookup_le leaf (codes "j") ≡ some idx)
    × (insert_leaf leaf idx (codes "j") val ≡ some b')
    × (get_val_at pending_store 1 no_pages b' key ≡ (
        if equal key (codes "j")
        then some (some val)
        else get_val_at pending_store 1 no_pages leaf key))
unfolding total
get_val_at-insert_leaf_example =
    get_val_at-insert_leaf pending_store no_pages 0 leaf (codes "j") val key entries leaf-IsNode.1
      entries-Ascending (omega arith) (omega arith)

get_val_at-delete_leaf_example :
    (idx : ℕ) × (node_lookup_le leaf key ≡ some idx)
    × ((delete_leaf leaf idx key ≡ some none)
          × (get_val_at pending_store 1 no_pages leaf key ≡ some none)
        ⊎ ((b' : BNode) × (delete_leaf leaf idx key ≡ some (some b'))
            × (get_val_at pending_store 1 no_pages b' [] ≡ (
                if equal [] key then some none else get_val_at pending_store 1 no_pages leaf []))))
unfolding total
get_val_at-delete_leaf_example =
    get_val_at-delete_leaf pending_store no_pages 0 leaf key [] entries leaf-IsNode.1
      entries-Ascending (omega arith) (omega arith)

write_entries-ReadsAll_example :
    (b' : BNode) × (write_entries (make page_size) bnode_leaf entries ≡ some b')
    × ReadsAll b' 0 entries
unfolding total
write_entries-ReadsAll_example =
    write_entries-ReadsAll (make page_size) bnode_leaf entries (omega arith) (omega arith)
      (omega arith) (omega arith)

node_merge-IsNode_example :
    (b' : BNode) × (node_merge (make page_size) leaf leaf ≡ some b')
    × (b'.size ≡ page_size)
    × IsNode b' bnode_leaf (entries ++ entries)
unfolding total
node_merge-IsNode_example =
    node_merge-IsNode (make page_size) leaf leaf bnode_leaf bnode_leaf entries entries leaf-IsNode.1
      leaf-IsNode.1 (omega arith) (omega arith) (omega arith)

-- An empty buffer for a leaf of three entries.
buffer-Built : (b : BNode) × (b.size ≡ page_size) × Built b 3 []
buffer-Built =
    let (b0, w0, s0, t0, h0) =
      header_lem (make page_size) bnode_leaf 3 (omega arith) (omega arith) (omega arith) in
    (b0, s0, h0)

node_append_range-Built_example :
    (b' : BNode) × (node_append_range buffer-Built.0 leaf 0 1 1 ≡ some b')
    × Extends buffer-Built.0 b' 3 (pair key val ∷ [])
unfolding total
node_append_range-Built_example =
    node_append_range-Built buffer-Built.0 leaf 3 2 [] (pair [] [] ∷ []) (pair key val ∷ []) []
      buffer-Built.2 leaf-IsNode.1.built (omega arith) (omega (arith, buffer-Built.1))
