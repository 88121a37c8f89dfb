-- ===== src/Pool/Disjoint.antt =====
-- src/xty_pool.cpp: however often DoPoolAllocate is called, its blocks do not overlap.
use xty.Base.{
  ℕ, ◌+◌, ◌≤◌, ◌%◌, ◌≡◌, refl, inl, inr, none, List, [], ◌∷◌, ◌++◌, All, All-append, All-mono,
  arith,
}
use xty.Pool.{PoolNode, chunk_len, create, new_node, carve, allocate_small}
use xty.Pool.Carve.{IsNode, Carved, IsChunk, carve_lem, new_node-IsNode, allocate_small-Carved}
use xty.Pool.Blocks.{
  Block, Disjoint, Apart, InSome, Clear, IsSpread, Carved-nodes, Carved-IsSpread, Carved-new,
  Carved-Clear, Carved-InSome, Carved-stays, Carved-aligned, apart-Clear,
}

-- The nodes of a pool and the blocks that it has handed out.
record IsPool (ns : List PoolNode) (bs : List Block) : Type 0 where
  nodes : All IsNode ns
  spread : IsSpread ns
  clear : All (λ b. All (Clear b) ns) bs
  inside : All (λ b. InSome b ns) bs

abbrev pub AreDisjoint : List Block → Type 0
AreDisjoint [] = Unit
AreDisjoint (b ∷ bs) = All (λ c. Disjoint c b) bs × AreDisjoint bs

all_clear :
    (size p : ℕ) (bs : List Block) (ns ns' : List PoolNode)
    → Carved size p ns ns'
    → All (λ b. All (Clear b) ns) bs
    → All (λ b. Disjoint b (p, size)) bs × All (λ b. All (Clear b) ns') bs
all_clear size p [] ns ns' c h = (tt, tt)
all_clear size p (b ∷ bs) ns ns' c (k, ks) =
    let (d, k') = Carved-Clear size p b ns ns' c k in
    let (ds, ks') = all_clear size p bs ns ns' c ks in ((d, ds), (k', ks'))

Carved-IsPool :
    (size p : ℕ) (bs : List Block) (ns ns' : List PoolNode)
    → Carved size p ns ns'
    → IsPool ns bs
    → All (λ b. Disjoint b (p, size)) bs × IsPool ns' ((p, size) ∷ bs)
Carved-IsPool size p bs ns ns' c h =
    let (ds, ks) = all_clear size p bs ns ns' c h.clear in
    (
      ds,
      record {
        nodes = Carved-nodes size p ns ns' c h.nodes;
        spread = Carved-IsSpread size p ns ns' c h.spread;
        clear = (Carved-new size p ns ns' c h.nodes h.spread, ks);
        inside = (
          Carved-InSome size p ns ns' c h.nodes,
          All-mono (λ b. InSome b ns) bs (λ b i. Carved-stays size p b ns ns' c i) h.inside,
        );
      },
    )

InSome-append : (b : Block) (ns ms : List PoolNode) → InSome b ns → InSome b (ns ++ ms)
InSome-append b [] ms i = absurd i
InSome-append b (n ∷ ns) ms (inl i) = inl i
InSome-append b (n ∷ ns) ms (inr i) = inr (InSome-append b ns ms i)

IsSpread-snoc :
    (ns : List PoolNode) (m : PoolNode) → IsSpread ns → All (Apart m) ns → IsSpread (ns ++ (m ∷ []))
IsSpread-snoc [] m sp a = (tt, tt)
IsSpread-snoc (n ∷ ns) m (h, sp) (a, as') =
    (All-append (Apart n) ns (m ∷ []) h (ground (arith, a), tt), IsSpread-snoc ns m sp as')

clear_of_new :
    (m : PoolNode) (ns : List PoolNode) (bs : List Block)
    → IsNode m
    → All (Apart m) ns
    → All (λ b. All (Clear b) ns) bs
    → All (λ b. InSome b ns) bs
    → All (λ b. All (Clear b) (ns ++ (m ∷ []))) bs
clear_of_new m ns [] hm a ks is = tt
clear_of_new m ns (b ∷ bs) hm a (k, ks) (i, is) = (
  All-append (Clear b) ns (m ∷ []) k (apart-Clear b m ns hm a i, tt),
  clear_of_new m ns bs hm a ks is,
)

IsPool-snoc :
    (m : PoolNode) (ns : List PoolNode) (bs : List Block)
    → IsNode m
    → All (Apart m) ns
    → IsPool ns bs
    → IsPool (ns ++ (m ∷ [])) bs
IsPool-snoc m ns bs hm a h = record {
  nodes = All-append IsNode ns (m ∷ []) h.nodes (hm, tt);
  spread = IsSpread-snoc ns m h.spread a;
  clear = clear_of_new m ns bs hm a h.clear h.inside;
  inside = All-mono (λ b. InSome b ns) bs (λ b i. InSome-append b ns (m ∷ []) i) h.inside;
}

module _ (pool_header node_header : ℕ) where
  -- A pool's nodes after some calls of DoPoolAllocate for small sizes, and the blocks that they
  -- answered with. posix_memalign promises, where it is called, chunks that are aligned and do not
  -- overlap.
  pub data Handed : List PoolNode → List Block → Type 0 where
    start :
        (address : ℕ)
        → IsChunk address
        → pool_header ≤ chunk_len
        → Handed (create pool_header address).nodes []
    call :
        (ns : List PoolNode) (bs : List Block) (fresh size : ℕ)
        → Handed ns bs
        → (carve size ns ≡ none → IsChunk fresh × All (Apart (new_node node_header fresh)) ns)
        → node_header + 8 + size ≤ chunk_len
        → Handed
            (allocate_small node_header fresh size ns).1
            (((allocate_small node_header fresh size ns).0, size) ∷ bs)

  abbrev AreGood : List PoolNode → List Block → Type 0
  AreGood ns bs = IsPool ns bs × AreDisjoint bs × All (λ b. b.0 % 8 ≡ 0) bs

  good_call :
      (ns ns' : List PoolNode) (bs : List Block) (p size : ℕ)
      → Carved size p ns ns'
      → IsPool ns bs
      → AreDisjoint bs
      → All (λ b. b.0 % 8 ≡ 0) bs
      → AreGood ns' ((p, size) ∷ bs)
  good_call ns ns' bs p size c h d al =
      let (ds, h') = Carved-IsPool size p bs ns ns' c h in
      (h', (ds, d), (Carved-aligned size p ns ns' c, al))

  Handed-AreGood : (ns : List PoolNode) (bs : List Block) → Handed ns bs → AreGood ns bs
  unfolding allocate_small
  Handed-AreGood ns bs (start address (m, t) fits) = (
    record {
      nodes = ((omega arith, omega arith, refl, m, t), tt);
      spread = (tt, tt);
      clear = tt;
      inside = tt;
    },
    tt,
    tt,
  )
  Handed-AreGood ns bs (call ns0 bs0 fresh size r promise small) =
      let (h, d, al) = Handed-AreGood ns0 bs0 r in
      let m = new_node node_header fresh in
      elim (carve_lem size ns0 h.nodes) [
        | inr (p, ns', e, c) ↦ rw (e, allocate_small) (good_call ns0 ns' bs0 p size c h d al)
        | inl (e, _) ↦
            let (chunk, apart) = promise e in
            elim (allocate_small-Carved node_header fresh size ns0 h.nodes chunk small) [
              | inl c ↦
                  good_call ns0 (allocate_small node_header fresh size ns0).1 bs0
                    (allocate_small node_header fresh size ns0).0 size c h d al
              | inr c ↦
                  good_call (ns0 ++ (m ∷ [])) (allocate_small node_header fresh size ns0).1 bs0
                    (allocate_small node_header fresh size ns0).0 size c
                    (IsPool-snoc m ns0 bs0 (new_node-IsNode node_header fresh (omega arith) chunk)
                      apart h)
                    d al
            ]
      ]

  pub Handed-AreDisjoint :
      (ns : List PoolNode) (bs : List Block)
      → Handed ns bs
      → AreDisjoint bs × All (λ b. InSome b ns) bs × All (λ b. b.0 % 8 ≡ 0) bs
  Handed-AreDisjoint ns bs r = let (h, d, al) = Handed-AreGood ns bs r in (d, h.inside, al)
