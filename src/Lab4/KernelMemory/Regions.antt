-- ===== src/Lab4/KernelMemory/Regions.antt =====
-- Lab4/kernel/vm.c: what the page tables of `kvminit` and `proc_kvminit` map.
use hitsz_os.Base.{
  ℕ, zero, suc, ◌+◌, ◌*◌, ◌/◌, ◌%◌, ◌^◌, ◌-◌, ◌≡◌, ◌≢◌, ◌≤◌, ◌<◌, ◌∙◌, refl, Bool, true, false,
  Option, none, some, ◌&&◌, arith, leb, ltb, if◌then◌else◌, List, [], ◌∷◌,
}
use Prim.Native.String.{String}
use hitsz_os.Base.Kernel.{
  pure, fail, update, Ends, returned, panicked, Ends-bind, Ends-Returns, Returns, Returns-mono,
}
use hitsz_os.Lab4.Memory.{Perm, Pte, leaf_pte, Allocator, Memory, zero_table, zero_bytes}
use hitsz_os.Lab4.PageTable.{Platform, px, mappages, kvmmap, proc_kvmmap}
use hitsz_os.Lab4.PageTable.Tree.{lookup, IsTree, IsAllocator}
use hitsz_os.Lab4.PageTable.Map.{Mapping, mappages-Mapping, span}

-- `size` bytes from `va` on, which are mapped to those from `pa` on.
pub record Region : Type 0 where
  pub va : ℕ
  pub size : ℕ
  pub pa : ℕ
  pub perm : Perm

abbrev pub in_region : Region → ℕ → Bool
in_region r x = leb r.va x && ltb x (r.va + r.size)

-- the entry of an address in a table that maps the regions
unfoldable pub translated : List Region → ℕ → Option Pte
translated [] x = none
translated (r ∷ rs) x =
    if in_region r x
    then some (leaf_pte (r.pa + (x / 4096 * 4096 - r.va)) r.perm)
    else translated rs x

module _ {A : Type 0} (al : Allocator A) (rank : ℕ → ℕ) (s : Memory A) where
  -- `root` is the root of a new table that maps the regions and nothing else. All tables of before
  -- translate as before.
  pub record MapsRegions (rs : List Region) (root : ℕ) (t : Memory A) : Type 0 where
    pub rank' : ℕ → ℕ
    pub tree : IsTree al rank' t
    pub top : rank' root ≡ 3
    pub fresh : rank root ≡ 0
    pub keeps : (q : ℕ) → rank q ≢ 0 → rank' q ≡ rank q
    pub maps : (x : ℕ) → x < 2 ^ 39 → lookup t.tables 2 root x ≡ translated rs x
    pub others : (p x : ℕ) → rank p ≡ 3 → lookup t.tables 2 p x ≡ lookup s.tables 2 p x

  module _ (good : IsAllocator al) (tree : IsTree al rank s) where
    -- the state with a new page, full of zeros
    abbrev pub with_root : Memory A
    with_root = record {
      tables = zero_table s.tables (al.take s.alloc).0;
      bytes = zero_bytes s.bytes (al.take s.alloc).0;
      alloc = (al.take s.alloc).1;
    }

    module _ (ne : (al.take s.alloc).0 ≢ 0) where
      new : rank (al.take s.alloc).0 ≡ 0
      new = tree.unfree (al.take s.alloc).0 (good.taken s.alloc ne)

      same_table :
          (k q x : ℕ)
          → rank q ≡ suc k
          → lookup (zero_table s.tables (al.take s.alloc).0) k q x ≡ lookup s.tables k q x
      unfolding lookup
      same_table zero q x e = ground (arith, new)
      same_table (suc k) q x e = ground (
        arith,
        new,
        same_table k (s.tables q (px (suc k) x)).pa x,
        tree.down k q (px (suc k) x) e,
      )

      empty_table :
          (x : ℕ) → lookup (zero_table s.tables (al.take s.alloc).0) 2 (al.take s.alloc).0 x ≡ none
      unfolding lookup
      empty_table x = ground arith

      pub MapsRegions-new : MapsRegions [] (al.take s.alloc).0 with_root
      unfolding translated
      MapsRegions-new = record {
        rank' = update rank (al.take s.alloc).0 3;
        tree = record {
          down = λ k p i e v. ground (arith, tree.down k p i, new);
          once = λ k p i q j e e' v v' same.
              ground (arith, tree.once k p i q j, tree.down k p i, tree.down k q j, new);
          unfree = λ p f. ground (arith, tree.unfree p, good.rest s.alloc p);
          zero_rank = ground (arith, tree.zero_rank);
        };
        top = ground arith;
        fresh = new;
        keeps = λ q nz. ground (arith, new);
        maps = λ x below. empty_table x;
        others = λ p x three. same_table 2 p x three;
      }

  module _ (good : IsAllocator al) (pl : Platform) (bound : pl.maxva ≤ 2 ^ 39)
      (down : (x : ℕ) → pl.pground_down x ≡ x / 4096 * 4096) where
    -- What a region must be to be added to a table.
    pub record Fits (rs : List Region) (r : Region) : Type 0 where
      pub aligned : r.va % 4096 ≡ 0
      pub whole : r.size % 4096 ≡ 0
      pub some_size : 0 < r.size
      pub inside : r.va + r.size ≤ pl.maxva
      pub phys : r.pa + r.size ≤ 2 ^ 64
      pub apart : (x : ℕ) → in_region r x ≡ true → translated rs x ≡ none

    abbrev Added : (rs : List Region) (r : Region) (root : ℕ) → Bool → Memory A → Type 0
    Added rs r root done t = done ≡ true → MapsRegions (r ∷ rs) root t

    region_entry :
        (rs : List Region) (r : Region)
        → Fits rs r
        → (n : ℕ) → n ≡ r.size / 4096
        → (root : ℕ) (t : Memory A) → MapsRegions rs root t
        → (x : ℕ) → x < 2 ^ 39
        → (if leb (r.va / 4096) (x / 4096) && ltb (x / 4096) (r.va / 4096 + n)
            then some (leaf_pte (r.pa + (x / 4096 - r.va / 4096) * 4096) r.perm)
            else lookup t.tables 2 root x)
          ≡ translated (r ∷ rs) x
    unfolding translated
    region_entry rs r fits n pages root t m x below =
        let aligned = fits.aligned in
        let whole = fits.whole in
        let same : (leb (r.va / 4096) (x / 4096) && ltb (x / 4096) (r.va / 4096 + n))
            ≡ in_region r x =
          ground arith in
        let same_pa : (x / 4096 - r.va / 4096) * 4096 ≡ x / 4096 * 4096 - r.va = omega arith in
        rw (same, same_pa, m.maps x below) refl

    next_regions :
        (rs : List Region) (r : Region)
        → Fits rs r
        → (root : ℕ) (t u : Memory A) (m : MapsRegions rs root t) (done : Bool)
        → Mapping al m.rank' t root
            (r.va / 4096)
            (span al pl good bound r.va r.size)
            r.pa
            r.perm
            done
            u
        → Added rs r root done u
    unfolding translated
    next_regions rs r fits root t u m true
          (rank'', tree, top, drew, keeps, others, (n, mapped, e), supplied) is_done =
        record {
          rank' = rank'';
          tree = tree;
          top = top;
          fresh = m.fresh;
          keeps = λ q nz. keeps q (ground (arith, m.keeps q nz)) ∙ m.keeps q nz;
          maps = λ x below. mapped x below ∙ region_entry rs r fits n (e ∙ pages) root t m x below;
          others = λ p x three.
              others p x (m.keeps p (ground arith) ∙ three) (ground (arith, m.fresh))
              ∙ m.others p x three;
        }
      where
        pages : span al pl good bound r.va r.size ≡ r.size / 4096
        pages =
            let h = fits.aligned in let h' = fits.whole in let h'' = fits.some_size in omega arith
    next_regions rs r fits root t u m false mapping is_done = ground arith

    module _ (rs : List Region) (r : Region) (fits : Fits rs r) (root : ℕ) (t : Memory A)
        (m : MapsRegions rs root t) where
      mappages_region : Returns (Added rs r root) (mappages al pl root r.va r.size r.pa r.perm t)
      mappages_region =
          let aligned = fits.aligned in
          let whole = fits.whole in
          let positive = fits.some_size in
          Returns-mono
            (mappages-Mapping al pl good bound down m.rank' t m.tree root m.top r.va r.size r.pa
              r.perm positive fits.inside (let phys = fits.phys in omega arith)
              (λ x below from to. m.maps x below ∙ fits.apart x (ground arith)))
            (λ done u mapping. next_regions rs r fits root t u m done mapping)

      unless_out_of_memory :
          (msg : String) (done : Bool) (u : Memory A)
          → Added rs r root done u
          → Ends (λ _ v. MapsRegions (r ∷ rs) root v) msg ((if done then pure tt else fail msg) u)
      unless_out_of_memory msg true u added = returned (added refl)
      unless_out_of_memory msg false u added = panicked

      pub kvmmap-MapsRegions :
          Ends
            (λ _ u. MapsRegions (r ∷ rs) root u)
            "kvmmap"
            (kvmmap al pl root r.va r.pa r.size r.perm t)
      unfolding kvmmap
      kvmmap-MapsRegions =
          Ends-bind (mappages al pl root r.va r.size r.pa r.perm) _ (Ends-Returns mappages_region)
            (unless_out_of_memory "kvmmap")

      pub proc_kvmmap-MapsRegions :
          Ends
            (λ _ u. MapsRegions (r ∷ rs) root u)
            "proc_kvmmap"
            (proc_kvmmap al pl root r.va r.pa r.size r.perm t)
      unfolding proc_kvmmap
      proc_kvmmap-MapsRegions =
          Ends-bind (mappages al pl root r.va r.size r.pa r.perm) _ (Ends-Returns mappages_region)
            (unless_out_of_memory "proc_kvmmap")
