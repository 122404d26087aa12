-- ===== src/Storage/Node/Entries/Append.antt =====
-- storage/btree.go: nodeAppendKV appends an entry.
use mathlib.Core.Path.{subst}
use auroradb.Prelude.{
  ℕ, ◌+◌, ◌*◌, ◌^◌, ◌<◌, ◌≤◌, ◌≡◌, sym, ap, ap₂, ◌∙◌, inl, inr, List, [], ◌∷◌, ◌++◌, append-nil,
  some, Bytes, length, length-append, All-append, arith,
}
use auroradb.Prelude.Panic.{some-injective}
use auroradb.Prelude.Words.{little_endian, length-little_endian}
use auroradb.Storage.Node.{BNode, bytes_from, get_offset, node_append_kv}
use auroradb.Storage.Node.Memory.{bytes_from-overlay, bytes_from-overlay-Apart}
use auroradb.Storage.Node.Writes.{
  Fits, step1, step2, step3, step4, step5, step6, pos, node_append_kv_lem,
}
use auroradb.Storage.Node.Append.{node_append_kv-HasEntry}
use auroradb.Storage.Node.Agree.{bytes_from-AgreeOn, bytes_from-add}
use auroradb.Storage.Node.Entries.{
  Entry, size, total, encode, encodes, encodes-append, total-append, Pointers, Offsets, Built,
  Pointers-append, Offsets-append, Offsets-behind, Offsets-first,
}
use auroradb.Storage.Node.Entries.Frame.{Framed, Pointers-Framed, Offsets-Framed}
use auroradb.Storage.Node.Entries.Part.{Extends}

module _ (b : BNode) (n idx off ptr : ℕ) (key val : Bytes) (f : Fits b n idx off ptr key val) where
  abbrev p : ℕ
  p = pos b n idx off ptr key val

  abbrev slot : ℕ
  slot = 4 + 8 * n + 2 * idx

  abbrev next : Bytes
  next = little_endian 2 (off + 4 + length key + length val)

  abbrev b5 : BNode
  b5 = step5 b n idx off ptr key val

  abbrev b4 : BNode
  b4 = step4 b n idx off ptr key val

  abbrev b3 : BNode
  b3 = step3 b n idx off ptr key val

  abbrev b2 : BNode
  b2 = step2 b n idx off ptr key val

  abbrev b1 : BNode
  b1 = step1 b n idx off ptr key val

  -- What is read at the entry is not the next offset.
  before_slot :
      (q m : ℕ) → p ≤ q → bytes_from (step6 b n idx off ptr key val).at q m ≡ bytes_from b5.at q m
  before_slot q m h =
      bytes_from-overlay-Apart b5.at slot next q m
        (inl (omega (arith, length-little_endian 2 (off + 4 + length key + length val), f.place)))

  key_length : bytes_from (step6 b n idx off ptr key val).at p 2 ≡ little_endian 2 (length key)
  key_length =
      before_slot p 2 (omega arith)
      ∙ bytes_from-overlay-Apart b4.at (p + 4 + length key) val p 2 (inr (omega arith))
      ∙ bytes_from-overlay-Apart b3.at (p + 4) key p 2 (inr (omega arith))
      ∙ bytes_from-overlay-Apart b2.at (p + 2) (little_endian 2 (length val)) p 2
          (inr (omega arith))
      ∙ (rw (length-little_endian 2 (length key)) at
          (bytes_from-overlay b1.at p (little_endian 2 (length key))))

  val_length :
      bytes_from (step6 b n idx off ptr key val).at (p + 2) 2 ≡ little_endian 2 (length val)
  val_length =
      before_slot (p + 2) 2 (omega arith)
      ∙ bytes_from-overlay-Apart b4.at (p + 4 + length key) val (p + 2) 2 (inr (omega arith))
      ∙ bytes_from-overlay-Apart b3.at (p + 4) key (p + 2) 2 (inr (omega arith))
      ∙ (rw (length-little_endian 2 (length val)) at
          (bytes_from-overlay b2.at (p + 2) (little_endian 2 (length val))))

  key_bytes : bytes_from (step6 b n idx off ptr key val).at (p + 4) (length key) ≡ key
  key_bytes =
      before_slot (p + 4) (length key) (omega arith)
      ∙ bytes_from-overlay-Apart b4.at (p + 4 + length key) val (p + 4) (length key)
          (inr (omega arith))
      ∙ bytes_from-overlay b3.at (p + 4) key

  val_bytes : bytes_from (step6 b n idx off ptr key val).at (p + 4 + length key) (length val) ≡ val
  val_bytes =
      before_slot (p + 4 + length key) (length val) (omega arith)
      ∙ bytes_from-overlay b4.at (p + 4 + length key) val

  -- The bytes of the entry, one part behind the other.
  entry_bytes :
      bytes_from (step6 b n idx off ptr key val).at p (4 + length key + length val)
      ≡ encode (record { ptr = ptr; key = key; val = val })
  unfolding encode
  entry_bytes =
      let g = (step6 b n idx off ptr key val).at in
      let e1 : 4 + length key + length val ≡ 2 + (2 + (length key + length val)) = omega arith in
      let e2 : p + 2 + 2 ≡ p + 4 = omega arith in
      ap (bytes_from g p) e1
      ∙ bytes_from-add g p 2 (2 + (length key + length val))
      ∙ ap₂ (λ s t. s ++ t) key_length
          (bytes_from-add g (p + 2) 2 (length key + length val)
            ∙ ap₂ (λ s t. s ++ t) val_length
                (ap (λ q. bytes_from g q (length key + length val)) e2
                  ∙ bytes_from-add g (p + 4) (length key) (length val)
                  ∙ ap₂ (λ s t. s ++ t) key_bytes val_bytes))

-- Where there is room for it, `nodeAppendKV` appends an entry to those of a node.
pub node_append_kv-Built :
    (b : BNode) (n : ℕ) (es : List Entry) (e : Entry)
    → Built b n es
    → length es < n
    → e.ptr < 2 ^ 64
    → 4 + 10 * n + total es + size e ≤ b.size
    → (b' : BNode) × (node_append_kv b (length es) e.ptr e.key e.val ≡ some b')
      × Extends b b' n (es ++ e ∷ [])
unfolding Pointers Offsets total encodes
node_append_kv-Built b n es e h lt word room =
    let first : get_offset b (length es) ≡ some (total es) =
      Offsets-first b (length es) (total es) [] (
        subst (λ i. Offsets b i (total es) []) (omega arith)
          (subst (λ f. Offsets b (0 + length es) f []) (omega arith)
            (Offsets-behind b 0 0 es []
              (subst (Offsets b 0 0) (sym (append-nil es)) h.offsets)))) in
    let f : Fits b n (length es) (total es) e.ptr e.key e.val = record {
      count = h.count;
      place = lt;
      offset = first;
      room = omega (arith, room);
      small = h.small;
    } in
    let (b', w, r) = node_append_kv-HasEntry b n (length es) (total es) e.ptr e.key e.val f word in
    let b6 = step6 b n (length es) (total es) e.ptr e.key e.val in
    let same : b' ≡ b6 =
      some-injective (sym w ∙ node_append_kv_lem b n (length es) (total es) e.ptr e.key e.val f) in
    let more : total (es ++ e ∷ []) ≡ total es + size e = omega (arith, total-append es (e ∷ [])) in
    let framed : Framed b b' n = record {
      size = r.size;
      count = h.count;
      narrow = omega (arith, h.small);
      header = λ i l u. r.kept i (omega arith) (omega arith) (omega arith);
    } in
    (
      b',
      w,
      record {
        size = r.size;
        type = λ i l u. r.kept i (omega arith) (omega arith) (omega arith);
        built = record {
          count = r.count;
          places = omega (arith, length-append es (e ∷ []));
          small = omega (arith, r.size, h.small);
          room = omega (arith, r.size, room, total-append es (e ∷ []));
          words = All-append _ es (e ∷ []) h.words (word, tt);
          pointers =
              Pointers-append b' 0 es (e ∷ [])
                (Pointers-Framed b b' n framed 0 es (omega arith)
                  (λ i l u. r.kept i (omega arith) (omega arith) (omega arith)) h.pointers)
                (subst (λ i. Pointers b' i (e ∷ [])) (omega arith) (r.pointer, tt));
          offsets =
              Offsets-append b' 0 0 es (e ∷ [])
                (Offsets-Framed b b' n framed 0 0 es (omega arith)
                  (λ i l u. r.kept i (omega arith) (omega arith) (omega arith)) h.offsets)
                (subst (λ i. Offsets b' i (0 + total es) (e ∷ [])) (omega arith)
                  (subst (λ o. Offsets b' (length es) o (e ∷ [])) (omega arith)
                    (r.offset, r.next_offset ∙ ap some (omega arith))));
          body =
              ap (bytes_from b'.at (4 + 10 * n)) more
              ∙ bytes_from-add b'.at (4 + 10 * n) (total es) (size e)
              ∙ ap₂ (λ s t. s ++ t)
                  (bytes_from-AgreeOn b'.at b.at (4 + 10 * n) (total es)
                      (λ i l u. r.kept i (omega arith) (omega arith) (omega arith))
                    ∙ h.body)
                  (ap (λ c. bytes_from c.at (4 + 10 * n + total es) (size e)) same
                    ∙ entry_bytes b n (length es) (total es) e.ptr e.key e.val f
                    ∙ sym (append-nil (encode e)))
              ∙ sym (encodes-append es (e ∷ []));
        };
      },
    )
