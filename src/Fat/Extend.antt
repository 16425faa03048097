-- ===== src/Fat/Extend.antt =====
-- A chain of clusters that `fat_write_file` of fs/fat16.c extends by a free cluster.
use ts_os.Base.{
  ℕ, ◌*◌, ◌<◌, ◌≡◌, ◌≢◌, refl, ◌∙◌, ap, sym, true, false, List, [], ◌∷◌, ◌++◌, All, arith, Outcome,
  done, halted, ◌>>=◌,
}
use mathlib.Core.Path.{subst}
use ts_os.Ata.{Media}
use ts_os.Fat.{Fat16Volume, fat_get_next_cluster, write_fat, fat_clus_normal, fat_clus_eof}
use ts_os.Fat.File.{next_or_new}
use ts_os.Fat.Table.{IsFat, InFat, write_fat-Updated}
use ts_os.Fat.Chain.{IsChain}
use ts_os.Fat.Free.{FreeCluster, found, none_left, fat_get_free_cluster-FreeCluster}
use ts_os.Fat.Scan.{Taken}

abbrev pub EndsWith : List ℕ → ℕ → Type 0
EndsWith [] e = ⊥
EndsWith (d ∷ []) e = d ≡ e
EndsWith (d ∷ f ∷ cs) e = EndsWith (f ∷ cs) e

All-EndsWith : (P : ℕ → Type 0) (cs : List ℕ) (e : ℕ) → EndsWith cs e → All P cs → P e
All-EndsWith P [] e ends all = absurd ends
All-EndsWith P (d ∷ []) e ends all = subst P ends all.0
All-EndsWith P (d ∷ f ∷ cs) e ends all = All-EndsWith P (f ∷ cs) e ends all.1

All-snoc : (P : ℕ → Type 0) (cs : List ℕ) (e : ℕ) → All P cs → P e → All P (cs ++ e ∷ [])
All-snoc P [] e all last = (last, tt)
All-snoc P (d ∷ cs) e all last = (all.0, All-snoc P cs e all.1 last)

-- the table with `e` linked to `new`, which ends its chain
pub record Linked (v : Fat16Volume) (media : Media) (e new : ℕ) (media' : Media) : Type 0 where
  pub still : IsFat v media'
  pub link : fat_get_next_cluster v media' e ≡ done new
  pub end_mark : fat_get_next_cluster v media' new ≡ done 0xFFFF
  pub others :
      (d : ℕ)
      → InFat v d
      → d ≢ e
      → d ≢ new
      → fat_get_next_cluster v media' d ≡ fat_get_next_cluster v media d

-- An entry of zero is on no chain that ends with the mark for this.
off_chain :
    (v : Fat16Volume) (media : Media) (cs : List ℕ) (c e t new : ℕ)
    → IsChain v media cs c
    → EndsWith cs e
    → fat_get_next_cluster v media e ≡ done t
    → fat_clus_eof t ≡ true
    → fat_get_next_cluster v media new ≡ done 0
    → All (λ d. d ≢ new) cs
unfolding fat_clus_eof fat_clus_normal
off_chain v media [] c e t new chain ends entry eof free = tt
off_chain v media (d ∷ []) c e t new chain ends entry eof free = (
  (λ d≡new.
      let same : done t ≡ done 0 =
        sym entry ∙ ap (fat_get_next_cluster v media) (sym ends ∙ d≡new) ∙ free in
      let t≡0 : t ≡ 0 = cc in ground arith),
  tt,
)
off_chain v media (d ∷ f ∷ cs) c e t new (d≡c, normal, in_fat, next, link, once, rest) ends entry
      eof free =
    (
      (λ d≡new.
          let same : done next ≡ done 0 =
            sym link ∙ ap (fat_get_next_cluster v media) (sym d≡c ∙ d≡new) ∙ free in
          let next≡0 : next ≡ 0 = cc in
          let live : fat_clus_normal next ≡ true = rest.1 in ground arith),
      off_chain v media (f ∷ cs) next e t new rest ends entry eof free,
    )

end_not-normal : fat_clus_normal 0xFFFF ≡ false
unfolding fat_clus_normal
end_not-normal = refl

IsChain-Linked :
    (v : Fat16Volume) (media media' : Media) (cs : List ℕ) (c e new : ℕ)
    → Linked v media e new media'
    → IsChain v media cs c
    → EndsWith cs e
    → All (λ d. d ≢ new) cs
    → fat_clus_normal new ≡ true
    → InFat v new
    → IsChain v media' (cs ++ new ∷ []) c
IsChain-Linked v media media' [] c e new up chain ends apart live in_new = absurd ends
IsChain-Linked v media media' (d ∷ []) c e new up (d≡c, normal, in_fat, next, link, once, rest) ends
      apart live in_new =
    (
      d≡c,
      normal,
      in_fat,
      new,
      ap (fat_get_next_cluster v media') (sym d≡c ∙ ends) ∙ up.link,
      ((λ new≡c. apart.0 (d≡c ∙ sym new≡c)), tt),
      (refl, live, in_new, 0xFFFF, up.end_mark, tt, end_not-normal),
    )
IsChain-Linked v media media' (d ∷ f ∷ cs) c e new up (d≡c, normal, in_fat, next, link, once, rest)
      ends apart live in_new =
    let e≢c : e ≢ c = All-EndsWith (λ i. i ≢ c) (f ∷ cs) e ends once in
    let new≢c : new ≢ c = (λ q. apart.0 (d≡c ∙ sym q)) in
    (
      d≡c,
      normal,
      in_fat,
      next,
      up.others c in_fat (λ q. e≢c (sym q)) (λ q. new≢c (sym q)) ∙ link,
      All-snoc (λ i. i ≢ c) (f ∷ cs) new once new≢c,
      IsChain-Linked v media media' (f ∷ cs) next e new up rest ends apart.1 live in_new,
    )

live : (new : ℕ) → 2 < new → new < 0xFFF0 → fat_clus_normal new ≡ true
unfolding fat_clus_normal
live new two small = ground arith

-- What the extension of the chain `cs` from `c` on, with the last cluster `e`, comes to: a free
-- cluster becomes the last one, or the code stops for good and no cluster is free.
pub data Extended (v : Fat16Volume) (media : Media) (cs : List ℕ) (c e : ℕ)
    : Outcome (ℕ × Media) → Type 0 where
  longer :
      (new : ℕ) (media' : Media)
      → fat_get_next_cluster v media new ≡ done 0
      → IsChain v media' (cs ++ new ∷ []) c
      → Linked v media e new media'
      → Extended v media cs c e (done (new, media'))
  no_room : Taken v media 0 (256 * v.sb.sectors_fat) → Extended v media cs c e halted

-- the writes of `next_or_new`, behind a search for a free cluster
link_new : Fat16Volume → Media → (cluster : ℕ) → Outcome ℕ → Outcome (ℕ × Media)
link_new v media cluster search = search >>= λ new. write_fat v media cluster new >>= λ (_, linked).
    write_fat v linked new 0xFFFF >>= λ (_, marked). done (new, marked)

link_new-Extended :
    (v : Fat16Volume) (media : Media) (cs : List ℕ) (c e t : ℕ) {o : Outcome ℕ}
    → IsFat v media
    → v.sb.sectors_fat < 256
    → IsChain v media cs c
    → EndsWith cs e
    → InFat v e
    → fat_get_next_cluster v media e ≡ done t
    → fat_clus_eof t ≡ true
    → FreeCluster v media o
    → Extended v media cs c e (link_new v media e o)
unfolding link_new
link_new-Extended v media cs c e t fat small chain ends in_e entry eof (none_left taken) =
    no_room taken
link_new-Extended v media cs c e t fat small chain ends in_e entry eof
      (found new in_new two free taken) =
    let below : new < 0xFFF0 = omega arith in
    let apart = off_chain v media cs c e t new chain ends entry eof free in
    let e≢new : e ≢ new = All-EndsWith (λ d. d ≢ new) cs e ends apart in
    let (m1, linked, up1) = write_fat-Updated v media e new fat in_e (omega arith) in
    let (m2, marked, up2) = write_fat-Updated v m1 new 0xFFFF up1.still in_new (omega arith) in
    let both : Linked v media e new m2 = record {
      still = up2.still;
      link = up2.others e in_e e≢new ∙ up1.here;
      end_mark = up2.here;
      others = λ d in_d d≢e d≢new. up2.others d in_d d≢new ∙ up1.others d in_d d≢e;
    } in
    rw (linked, ◌>>=◌, marked, ◌>>=◌)
      (longer new m2 free
        (IsChain-Linked v media m2 cs c e new both chain ends apart (live new two below) in_new)
        both)

-- On a table of at most 255 sectors that are `q` whole clusters' worth of them, where the last
-- cluster `e` of a chain has a mark for its end, `next_or_new` returns a cluster that was free: it
-- is then the last cluster of the chain, which has the other clusters as before, and the entries of
-- all other clusters are unchanged. If no cluster from number 3 on is free, the code stops for good.
pub next_or_new-IsChain :
    (v : Fat16Volume) (media : Media) (q : ℕ) (cs : List ℕ) (c e t : ℕ)
    → IsFat v media
    → v.sb.sectors_fat < 256
    → 0 < v.sb.sectors_per_cluster
    → v.sb.sectors_per_cluster < 256
    → v.cluster_bytes ≡ 512 * v.sb.sectors_per_cluster
    → q * v.sb.sectors_per_cluster ≡ v.sb.sectors_fat
    → IsChain v media cs c
    → EndsWith cs e
    → InFat v e
    → fat_get_next_cluster v media e ≡ done t
    → fat_clus_eof t ≡ true
    → Extended v media cs c e (next_or_new v media e)
unfolding next_or_new link_new
next_or_new-IsChain v media q cs c e t fat small pos byte whole blocks chain ends in_e entry eof =
    rw (entry, ◌>>=◌, eof)
      (link_new-Extended v media cs c e t fat small chain ends in_e entry eof
        (fat_get_free_cluster-FreeCluster v media q fat (omega arith) pos byte whole blocks))
