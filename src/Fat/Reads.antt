-- ===== src/Fat/Reads.antt =====
-- The loop of `fat_read_file` in fs/fat16.c over the clusters of a file.
use ts_os.Base.{
  ℕ, zero, suc, ◌+◌, ◌-◌, ◌*◌, ◌/◌, ◌%◌, ◌^◌, ◌≤◌, ◌<◌, ◌≡◌, refl, ◌∙◌, ap, sym, true, false, ◌&&◌,
  not, Bool-cases, inl, inr, List, [], ◌∷◌, ◌++◌, length, arith, ◌==◌, ltb, if◌then◌else◌, u32,
  done,
}
use mathlib.Core.List.{append_assoc}
use native.Mathlib.Nat.{mod-lt}
use ts_os.Base.Bytes.{take, drop, length-take, length-append}
use ts_os.Base.Parts.{length-drop, take_joined, drop_joined, drop-front, take_add, drop-drop}
use ts_os.Ata.{Media}
use ts_os.String.{Str}
use ts_os.Fat.{Fat16Volume, fat_clus_eof, fat_get_next_cluster}
use ts_os.Fat.File.{min, read_from}
use ts_os.Fat.Offset.{cluster_end, same_cluster, next_cluster, next_cluster-mod}
use ts_os.Fat.Read.{
  HasClusters, IsPlaced, cluster, content, IsFileChain, fat_read_cluster-cluster, length-cluster,
  read_from-suc,
}

inside_part :
    (block rest : List ℕ) (o n : ℕ)
    → o + n ≤ length block
    → take n (drop o (block ++ rest)) ≡ take n (drop o block)
inside_part block rest o n fits =
    ap (take n) (drop_joined o block rest (omega arith))
    ∙ take_joined n (drop o block) rest (omega (arith, length-drop o block))

end_part :
    (block rest : List ℕ) (o n m : ℕ)
    → o + n ≡ length block
    → take (n + m) (drop o (block ++ rest)) ≡ take n (drop o block) ++ take m rest
end_part block rest o n m e =
    let at_end : o + n ≡ length block + 0 = omega arith in
    let behind : drop n (drop o (block ++ rest)) ≡ rest =
      drop-drop o n (block ++ rest)
      ∙ ap (λ (i : ℕ). drop i (block ++ rest)) at_end
      ∙ drop-front block rest 0 in
    take_add n m (drop o (block ++ rest))
    ∙ ap (λ (l : List ℕ). l ++ take m (drop n (drop o (block ++ rest))))
        (inside_part block rest o n (omega arith))
    ∙ ap (λ (l : List ℕ). take n (drop o block) ++ take m l) behind

-- two reads behind each other, of which the first ends the block
joined_parts :
    (front block rest old : Str) (o n m : ℕ)
    → o + n ≡ length block
    → (front ++ take n (drop o block)) ++ (take m rest ++ drop m (drop n old))
      ≡ front ++ (take (n + m) (drop o (block ++ rest)) ++ drop (n + m) old)
joined_parts front block rest old o n m e =
    let bytes = take n (drop o block) in
    append_assoc front bytes (take m rest ++ drop m (drop n old))
    ∙ ap (λ (l : Str). front ++ l)
        (sym (append_assoc bytes (take m rest) (drop m (drop n old)))
          ∙ rw (end_part block rest o n m e, drop-drop n m old) refl)

read_from-end :
    (v : Fat16Volume) (media : Media) (k limit c cnt : ℕ) (buf : Str)
    → read_from (suc k) v media limit c limit cnt buf ≡ done (c, limit, cnt, buf)
unfolding read_from
read_from-end v media k limit c cnt buf =
    let stop : (ltb limit limit && not (fat_clus_eof c)) ≡ false = ground arith in
    rw (read_from, stop) refl

min_first : (a b : ℕ) → a ≤ b → b < 2 ^ 31 → min a b ≡ a
min_first a b le small = ground arith

min_second : (a b : ℕ) → b ≤ a → a < 2 ^ 31 → min a b ≡ b
min_second a b le small = ground arith

module _ (v : Fat16Volume) (media : Media) (has : HasClusters v media) (limit : ℕ)
    (fits : limit + v.cluster_bytes ≤ 2 ^ 31) where
  -- the loop up to the limit: the bytes of the chain stand behind what was read before
  unfoldable pub Reads : (k c offset : ℕ) → (cs : List ℕ) → (front old : Str) → Type 0
  Reads k c offset cs front old =
      (c' : ℕ) × (read_from k v media limit c offset (length front) (front ++ old)
        ≡ done (
          c',
          limit,
          length front + (limit - offset),
          front
              ++ (take (limit - offset) (drop (offset % v.cluster_bytes) (content v media cs))
                  ++ drop (limit - offset) old),
        ))

  read_last :
      (k c d offset : ℕ) (cs : List ℕ) (front old : Str)
      → IsFileChain v media (d ∷ cs) c
      → offset < limit
      → offset % v.cluster_bytes + (limit - offset) < v.cluster_bytes
      → limit - offset ≤ length old
      → length front ≤ offset
      → Reads (suc (suc k)) c offset (d ∷ cs) front old
  unfolding Reads
  read_last k c d offset cs front old (d≡c, live, placed, next, link, rest) lt short room count =
      let n = limit - offset in
      let pos : 0 < v.cluster_bytes = omega (arith, has.some_sector, has.whole) in
      let o = offset % v.cluster_bytes in
      let block = cluster v media c in
      let full = length-cluster v media has c placed in
      let go : (ltb offset limit && not (fat_clus_eof c)) ≡ true = rw live (ground arith) in
      let at : offset + n ≡ limit = omega arith in
      let word : u32 (offset + v.cluster_bytes) ≡ offset + v.cluster_bytes = omega arith in
      let bound = mod-lt offset pos in
      let end : min limit (u32 (offset + v.cluster_bytes) / v.cluster_bytes * v.cluster_bytes)
          ≡ offset + n =
        rw (word, cluster_end v.cluster_bytes offset pos)
          (min_first limit (offset + (v.cluster_bytes - o)) (omega arith) (omega arith) ∙ sym at) in
      let same : ((offset + n) / v.cluster_bytes == offset / v.cluster_bytes) ≡ true =
        rw (same_cluster v.cluster_bytes offset pos n short) (ground arith) in
      let stay : (if (offset + n) / v.cluster_bytes == offset / v.cluster_bytes
            then done c
            else fat_get_next_cluster v media c)
          ≡ done c =
        rw same refl in
      let part = inside_part block (content v media cs) o n (omega arith) in
      (
        c,
        read_from-suc v media (suc k) limit c offset n c v.sb.sectors_per_cluster front old block go
              end (omega arith) (omega arith) (fat_read_cluster-cluster v media has c placed)
              (omega arith) room stay
            ∙ ap
                (λ (at' : ℕ).
                  read_from (suc k) v media limit c at' (length front + n)
                    (front ++ (take n (drop o block) ++ drop n old)))
                at
            ∙ read_from-end v media k limit c (length front + n)
                (front ++ (take n (drop o block) ++ drop n old))
            ∙ rw (d≡c, part) refl,
      )

  read_next :
      (k c d offset next : ℕ) (cs : List ℕ) (front old : Str)
      → d ≡ c
      → fat_clus_eof c ≡ false
      → IsPlaced v media c
      → fat_get_next_cluster v media c ≡ done next
      → offset < limit
      → v.cluster_bytes ≤ offset % v.cluster_bytes + (limit - offset)
      → limit - offset ≤ length old
      → length front ≤ offset
      → ((front' old' : Str) (offset' : ℕ)
          → offset' ≡ offset + (v.cluster_bytes - offset % v.cluster_bytes)
          → length old' ≡ length old - (v.cluster_bytes - offset % v.cluster_bytes)
          → length front' ≤ offset'
          → Reads k next offset' cs front' old')
      → Reads (suc k) c offset (d ∷ cs) front old
  unfolding Reads
  read_next k c d offset next cs front old d≡c live placed link lt long room behind rest =
      let pos : 0 < v.cluster_bytes = omega (arith, has.some_sector, has.whole) in
      let o = offset % v.cluster_bytes in
      let n = v.cluster_bytes - o in
      let m = (limit - offset) - n in
      let short : o < v.cluster_bytes = mod-lt offset pos in
      let block = cluster v media c in
      let full = length-cluster v media has c placed in
      let go : (ltb offset limit && not (fat_clus_eof c)) ≡ true = rw live (ground arith) in
      let word : u32 (offset + v.cluster_bytes) ≡ offset + v.cluster_bytes = omega arith in
      let bound = mod-lt offset pos in
      let end : min limit (u32 (offset + v.cluster_bytes) / v.cluster_bytes * v.cluster_bytes)
          ≡ offset + n =
        rw (word, cluster_end v.cluster_bytes offset pos)
          (min_second limit (offset + n) (omega arith) (omega arith)) in
      let up : o + n ≡ v.cluster_bytes = omega arith in
      let other : ((offset + n) / v.cluster_bytes == offset / v.cluster_bytes) ≡ false =
        rw (next_cluster v.cluster_bytes offset pos n up) (ground arith) in
      let moved : (if (offset + n) / v.cluster_bytes == offset / v.cluster_bytes
            then done c
            else fat_get_next_cluster v media c)
          ≡ done next =
        rw (other, link) refl in
      let bytes = take n (drop o block) in
      let some_bytes : length bytes ≡ n =
        length-take n (drop o block) (omega (arith, length-drop o block)) in
      let front' = front ++ bytes in
      let old' = drop n old in
      let count : length front' ≡ length front + n = omega (arith, length-append front bytes) in
      let (c', runs) = rest front' old' (offset + n) refl (length-drop n old) (omega arith) in
      let counts : length front' + (limit - (offset + n)) ≡ length front + (limit - offset) =
        omega arith in
      let buf : front' ++ old' ≡ front ++ (bytes ++ old') = append_assoc front bytes old' in
      let start : (offset + n) % v.cluster_bytes ≡ 0 =
        next_cluster-mod v.cluster_bytes offset pos n up in
      let left : limit - (offset + n) ≡ m = omega arith in
      let total : n + m ≡ limit - offset = omega arith in
      let joined : front' ++ (take m (content v media cs) ++ drop m old')
          ≡ front
            ++ (take (limit - offset) (drop o (block ++ content v media cs))
                ++ drop (limit - offset) old) =
        joined_parts front block (content v media cs) old o n m (omega arith)
        ∙ ap (λ (i : ℕ). front ++ (take i (drop o (block ++ content v media cs)) ++ drop i old))
            total in
      (
        c',
        read_from-suc v media k limit c offset n next v.sb.sectors_per_cluster front old block go
              end (omega arith) (omega arith) (fat_read_cluster-cluster v media has c placed)
              (omega arith) (omega arith) moved
            ∙ ap (λ (b : Str). read_from k v media limit next (offset + n) (length front + n) b)
                (sym buf)
            ∙ ap (λ (i : ℕ). read_from k v media limit next (offset + n) i (front' ++ old'))
                (sym count)
            ∙ runs
            ∙ rw (counts, left, start, d≡c, joined) refl,
      )

  nothing_asked :
      (k c offset : ℕ) (cs : List ℕ) (front old : Str)
      → offset ≡ limit
      → Reads (suc k) c offset cs front old
  unfolding Reads
  nothing_asked k c offset cs front old at_end =
      let none : limit - offset ≡ 0 = omega arith in
      let counts : length front + 0 ≡ length front = omega arith in
      (
        c,
        ap (λ (i : ℕ). read_from (suc k) v media limit c i (length front) (front ++ old)) at_end
            ∙ read_from-end v media k limit c (length front) (front ++ old)
            ∙ rw (none, counts) refl,
      )

  pub read_from-Reads :
      (k c offset : ℕ) (cs : List ℕ) (front old : Str)
      → IsFileChain v media cs c
      → offset ≤ limit
      → offset % v.cluster_bytes + (limit - offset) ≤ v.cluster_bytes * length cs
      → limit - offset ≤ length old
      → limit - offset < k
      → length front ≤ offset
      → Reads k c offset cs front old
  read_from-Reads zero c offset cs front old chain le enough room fuel count = absurd (omega arith)
  read_from-Reads (suc k) c offset [] front old chain le enough room fuel count =
      nothing_asked k c offset [] front old (omega arith)
  read_from-Reads (suc zero) c offset (d ∷ cs) front old chain le enough room fuel count =
      nothing_asked zero c offset (d ∷ cs) front old (omega arith)
  read_from-Reads (suc (suc k)) c offset (d ∷ cs) front old chain le enough room fuel count =
      elim (Bool-cases (ltb offset limit)) [
        | inr stop ↦ nothing_asked (suc k) c offset (d ∷ cs) front old (ground arith)
        | inl go ↦
            let lt : offset < limit = ground arith in
            elim (Bool-cases (ltb (offset % v.cluster_bytes + (limit - offset)) v.cluster_bytes)) [
              | inl short ↦ read_last k c d offset cs front old chain lt (ground arith) room count
              | inr long ↦
                  let (d≡c, live, placed, next, link, rest) = chain in
                  let pos : 0 < v.cluster_bytes = omega (arith, has.some_sector, has.whole) in
                  let o_lt = mod-lt offset pos in
                  read_next (suc k) c d offset next cs front old d≡c live placed link lt
                    (ground arith) room count
                    (λ front' old' offset' at len behind.
                      let start : offset' % v.cluster_bytes ≡ 0 =
                        ap (λ (i : ℕ). i % v.cluster_bytes) at
                        ∙ next_cluster-mod v.cluster_bytes offset pos
                            (v.cluster_bytes - offset % v.cluster_bytes) (omega arith) in
                      read_from-Reads (suc k) next offset' cs front' old' rest (ground arith)
                        (ground arith) (ground arith) (ground arith) behind)
            ]
      ]
