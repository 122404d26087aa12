-- ===== src/Storage/Node/Entries/Range.antt =====
-- storage/btree.go: nodeAppendRange appends a part of a node's entries to those of another.
use mathlib.Core.Path.{subst}
use auroradb.Prelude.{
  ℕ, suc, ◌+◌, ◌-◌, ◌*◌, ◌%◌, ◌<◌, ◌≤◌, ◌≡◌, refl, sym, ap, ap₂, ◌∙◌, inl, inr, ◌⊎◌, List, [], ◌∷◌,
  ◌++◌, append-nil, false, some, length, length-append, All-append, ltb, ◌==◌, arith,
}
use auroradb.Storage.Node.{BNode, bytes_from, put, nkeys, get_offset, u16_mod}
use auroradb.Storage.Node.Memory.{nkeys-put, bytes_from-overlay}
use auroradb.Storage.Node.Ranges.{
  node_append_range, append_entries, copy_ptrs, copy_offsets, kv_start,
}
use auroradb.Storage.Node.Agree.{bytes_from-AgreeOn, bytes_from-add}
use auroradb.Storage.Node.Entries.{
  Entry, total, encodes, encodes-append, length-encodes, total-append, Pointers, Offsets, Built,
  Pointers-append, Offsets-append, Offsets-behind, Offsets-before, Offsets-first,
}
use auroradb.Storage.Node.Entries.Frame.{Framed, put-AgreeOn, Pointers-Framed, Offsets-Framed}
use auroradb.Storage.Node.Entries.Part.{
  Extends, copy_entries_lem, part_of_body, old_places, old_room, old_words, old_pointers,
  old-Offsets, old_first, old_last,
}
use auroradb.Storage.Node.Entries.Copy.{Rest, copy_ptrs_lem, copy_offsets_lem}

module _ (b old : BNode) (n k : ℕ) (news xs ys zs : List Entry) (h : Built b n news)
    (o : Built old k (xs ++ (ys ++ zs))) (places : length news + length ys ≤ n)
    (room : 4 + 10 * n + total news + total ys ≤ b.size) where
  new_end : get_offset b (length news) ≡ some (total news)
  new_end = Offsets-first b (length news) (total news) [] (
      subst (λ es. Offsets b (length news) (total news) es) refl
        (subst (λ i. Offsets b i (total news) []) (omega arith)
          (subst (λ f. Offsets b (0 + length news) f []) (omega arith)
            (Offsets-behind b 0 0 news []
              (subst (Offsets b 0 0) (sym (append-nil news)) h.offsets)))))

  kv_start_lem :
      (c : BNode) (m : ℕ) → nkeys c ≡ some m → 4 + 10 * m < u16_mod → kv_start c ≡ some (4 + 10 * m)
  unfolding kv_start
  kv_start_lem c m e lt = rw e (ap some (omega arith))

  ptrs :
      (b1 : BNode) × (copy_ptrs (length ys) b old (length news) (length xs) ≡ some b1)
      × Rest b b1 (4 + 8 * length news) (4 + 8 * (length news + length ys))
      × Pointers b1 (length news) ys
  ptrs =
      copy_ptrs_lem b old n (length news) (length xs) ys h.count (omega arith) h.small places
        (omega (arith, (old_places old k xs ys zs o), (old_room old k xs ys zs o), o.small))
        (old_words old k xs ys zs o) (old_pointers old k xs ys zs o)

  abbrev b1 : BNode
  b1 = ptrs.0

  rest1 : Rest b b1 (4 + 8 * length news) (4 + 8 * (length news + length ys))
  rest1 = ptrs.2

  framed1 : Framed b b1 n
  framed1 = record {
    size = rest1.size;
    count = h.count;
    narrow = omega (arith, h.small);
    header = λ i l u. rest1.kept i (inl (omega arith));
  }

  end1 : get_offset b1 (length news) ≡ some (total news)
  end1 =
      unfold Offsets in
      Offsets-Framed b b1 n framed1 (length news) (total news) [] (omega arith)
        (λ i l u. rest1.kept i (inr (omega arith))) new_end

  offs :
      (b2 : BNode) × (copy_offsets
          (length ys)
          b1
          old
          (length news)
          (length xs)
          ((total news + u16_mod - total xs) % u16_mod)
        ≡ some b2)
      × Rest b1 b2 (4 + 8 * n + 2 * length news) (4 + 8 * n + 2 * (length news + length ys))
      × Offsets b2 (length news) (total news) ys
  offs =
      copy_offsets_lem b1 old n (length news) (length xs) (total news) (total xs)
        ((total news + u16_mod - total xs) % u16_mod) ys (rest1.count ∙ h.count)
        (omega (arith, rest1.size)) (omega (arith, rest1.size, h.small)) places
        (omega (arith, (old_places old k xs ys zs o), (old_room old k xs ys zs o), o.small))
        (omega (arith, (old_room old k xs ys zs o), o.small, h.small)) (omega (arith, h.small))
        (omega (arith, (old_room old k xs ys zs o), o.small))
        (Offsets-before old (length xs) (total xs) ys zs (old-Offsets old k xs ys zs o)) end1

  abbrev b2 : BNode
  b2 = offs.0

  rest2 : Rest b1 b2 (4 + 8 * n + 2 * length news) (4 + 8 * n + 2 * (length news + length ys))
  rest2 = offs.2

  abbrev b3 : BNode
  b3 = put b2 (4 + 10 * n + total news) (encodes ys)

  size3 : b3.size ≡ b.size
  size3 = rest2.size ∙ rest1.size

  append_entries_lem : append_entries b old (length news) (length xs) (length ys) ≡ some b3
  unfolding append_entries
  append_entries_lem =
      let few : length ys == 65535 ≡ false = ground (arith, places, h.small, room) in
      let c1 = rest1.count ∙ h.count in
      let c2 = rest2.count ∙ c1 in
      let last : (length xs + length ys) % u16_mod ≡ length xs + length ys =
        omega (arith, (old_places old k xs ys zs o), (old_room old k xs ys zs o), o.small) in
      let to : (total news + (4 + 10 * n)) % u16_mod ≡ 4 + 10 * n + total news =
        omega (arith, room, h.small) in
      let from : (total xs + (4 + 10 * k)) % u16_mod ≡ 4 + 10 * k + total xs =
        omega (arith, (old_room old k xs ys zs o), o.small) in
      let end : (total xs + total ys + (4 + 10 * k)) % u16_mod ≡ 4 + 10 * k + total xs + total ys =
        omega (arith, (old_room old k xs ys zs o), o.small) in
      rw
        (
          few,
          ptrs.1,
          end1,
          (old_first old k xs ys zs o),
          offs.1,
          kv_start_lem old k o.count (omega (arith, (old_room old k xs ys zs o), o.small)),
          last,
          (old_last old k xs ys zs o),
          kv_start_lem b2 n c2 (omega (arith, room, h.small)),
          Offsets-first b2 (length news) (total news) ys offs.3,
          to,
          from,
          end,
        )
        (copy_entries_lem b2 old (4 + 10 * n + total news) (4 + 10 * k + total xs) (total ys)
          (encodes ys) (part_of_body old.at (4 + 10 * k) xs ys zs o.body) (length-encodes ys)
          (old_room old k xs ys zs o) (omega (arith, size3, room)))

  -- The bytes of the header and of the entries before are as they were.
  kept3 :
      (i : ℕ)
      → i < 4 + 10 * n + total news
      → (i < 4 + 8 * length news) ⊎ (4 + 8 * (length news + length ys) ≤ i)
      → (i < 4 + 8 * n + 2 * length news) ⊎ (4 + 8 * n + 2 * (length news + length ys) ≤ i)
      → b3.at i ≡ b.at i
  kept3 i lt p q =
      put-AgreeOn b2 (4 + 10 * n + total news) (encodes ys) i (suc i) (inr (omega arith)) i
        (omega arith) (omega arith)
      ∙ rest2.kept i q
      ∙ rest1.kept i p

  body3 : bytes_from b3.at (4 + 10 * n) (total (news ++ ys)) ≡ encodes (news ++ ys)
  body3 =
      ap (bytes_from b3.at (4 + 10 * n)) (total-append news ys)
      ∙ bytes_from-add b3.at (4 + 10 * n) (total news) (total ys)
      ∙ ap₂ (λ s t. s ++ t)
          (bytes_from-AgreeOn b3.at b.at (4 + 10 * n) (total news)
              (λ i l u. kept3 i u (inr (omega arith)) (inr (omega arith)))
            ∙ h.body)
          (ap (bytes_from b3.at (4 + 10 * n + total news)) (sym (length-encodes ys))
            ∙ bytes_from-overlay b2.at (4 + 10 * n + total news) (encodes ys))
      ∙ sym (encodes-append news ys)

  framed3 : Framed b b3 n
  framed3 = record {
    size = size3;
    count = h.count;
    narrow = omega (arith, h.small);
    header = λ i l u. kept3 i (omega arith) (inl (omega arith)) (inl (omega arith));
  }

  -- What the copy of the bytes leaves of the pointers and the offsets.
  framed13 : Framed b1 b3 n
  framed13 = record {
    size = rest2.size;
    count = rest1.count ∙ h.count;
    narrow = omega (arith, h.small);
    header = λ i l u.
        put-AgreeOn b2 (4 + 10 * n + total news) (encodes ys) i (suc i) (inr (omega arith)) i
          (omega arith) (omega arith)
        ∙ rest2.kept i (inl (omega arith));
  }

  framed23 : Framed b2 b3 n
  framed23 = record {
    size = refl;
    count = rest2.count ∙ rest1.count ∙ h.count;
    narrow = omega (arith, h.small);
    header = λ i l u.
        put-AgreeOn b2 (4 + 10 * n + total news) (encodes ys) i (suc i) (inr (omega arith)) i
          (omega arith) (omega arith);
  }

  pointers3 : Pointers b3 0 (news ++ ys)
  pointers3 =
      Pointers-append b3 0 news ys
        (Pointers-Framed b b3 n framed3 0 news (omega arith)
          (λ i l u. kept3 i (omega arith) (inl (omega arith)) (inl (omega arith))) h.pointers)
        (subst (λ i. Pointers b3 i ys) (omega arith)
          (Pointers-Framed b1 b3 n framed13 (length news) ys places
            (λ i l u.
              put-AgreeOn b2 (4 + 10 * n + total news) (encodes ys) i (suc i) (inr (omega arith)) i
                (omega arith) (omega arith)
              ∙ rest2.kept i (inl (omega arith)))
            ptrs.3))

  offsets3 : Offsets b3 0 0 (news ++ ys)
  offsets3 =
      Offsets-append b3 0 0 news ys
        (Offsets-Framed b b3 n framed3 0 0 news (omega arith)
          (λ i l u. kept3 i (omega arith) (inr (omega arith)) (inl (omega arith))) h.offsets)
        (subst (λ i. Offsets b3 i (0 + total news) ys) (omega arith)
          (subst (λ f. Offsets b3 (length news) f ys) (omega arith)
            (Offsets-Framed b2 b3 n framed23 (length news) (total news) ys places
              (λ i l u.
                put-AgreeOn b2 (4 + 10 * n + total news) (encodes ys) i (suc i) (inr (omega arith))
                  i (omega arith) (omega arith))
              offs.3)))

  Built3 : Built b3 n (news ++ ys)
  Built3 = record {
    count =
        nkeys-put b2 (4 + 10 * n + total news) (encodes ys) (omega arith)
        ∙ rest2.count
        ∙ rest1.count
        ∙ h.count;
    places = omega (arith, length-append news ys, places);
    small = omega (arith, size3, h.small);
    room = omega (arith, size3, room, total-append news ys);
    words = All-append _ news ys h.words (old_words old k xs ys zs o);
    pointers = pointers3;
    offsets = offsets3;
    body = body3;
  }

-- Where there is room for them, `nodeAppendRange` appends any part of a node's entries to those of another: it does not
-- panic, and pointers, offsets, keys and values are those of the part.
pub node_append_range-Built :
    (b old : BNode) (n k : ℕ) (news xs ys zs : List Entry)
    → Built b n news
    → Built old k (xs ++ (ys ++ zs))
    → length news + length ys ≤ n
    → 4 + 10 * n + total news + total ys ≤ b.size
    → (b' : BNode) × (node_append_range b old (length news) (length xs) (length ys) ≡ some b')
      × Extends b b' n (news ++ ys)
unfolding node_append_range
node_append_range-Built b old n k news xs [] zs h o places room = (
  b,
  (let t : ltb n ((length news + 0) % u16_mod) ≡ false = ground (arith, h.small, h.room, places) in
      let u : ltb k ((length xs + 0) % u16_mod) ≡ false =
        ground (arith, o.small, o.room, o.places, length-append xs zs) in
      rw (h.count, o.count, t, u)),
  record { size = refl; type = λ i l u. refl; built = subst (Built b n) (sym (append-nil news)) h },
)
node_append_range-Built b old n k news xs (y ∷ ys) zs h o places room = (
  b3 b old n k news xs (y ∷ ys) zs h o places room,
  (let t : ltb n ((length news + suc (length ys)) % u16_mod) ≡ false =
        ground (arith, h.small, h.room, places) in
      let u : ltb k ((length xs + suc (length ys)) % u16_mod) ≡ false =
        ground (arith, o.small, o.room, old_places old k xs (y ∷ ys) zs o) in
      let some_left : suc (length ys) == 0 ≡ false = ground arith in
      rw (h.count, o.count, t, u, some_left)
        (append_entries_lem b old n k news xs (y ∷ ys) zs h o places room)),
  record {
    size = size3 b old n k news xs (y ∷ ys) zs h o places room;
    type = λ i l u.
        kept3 b old n k news xs (y ∷ ys) zs h o places room i (omega arith) (inl (omega arith))
          (inl (omega arith));
    built = Built3 b old n k news xs (y ∷ ys) zs h o places room;
  },
)
