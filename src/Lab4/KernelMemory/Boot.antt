-- ===== src/Lab4/KernelMemory/Boot.antt =====
-- Lab4/kernel/vm.c: `kvminit` and `proc_kvminit`.
use hitsz_os.Base.{
  ℕ, ◌+◌, ◌*◌, ◌/◌, ◌%◌, ◌^◌, ◌-◌, ◌≡◌, ◌≢◌, ◌≤◌, ◌<◌, refl, none, arith, ◌⊎◌, List, [], ◌∷◌,
}
use hitsz_os.Base.Kernel.{M, ◌>>◌, Ends, returned, Ends-bind}
use hitsz_os.Lab4.Memory.{Perm, Allocator, Memory}
use hitsz_os.Lab4.PageTable.{Platform, u64, kvmmap, proc_kvmmap}
use hitsz_os.Lab4.PageTable.Tree.{IsTree, IsAllocator}
use hitsz_os.Lab4.KernelMemory.{data_perm, text_perm, kvminit, proc_kvminit}
use hitsz_os.Lab4.KernelMemory.Regions.{
  Region, translated, MapsRegions, MapsRegions-new, Fits, kvmmap-MapsRegions,
  proc_kvmmap-MapsRegions,
}

-- What the code relies on of memlayout.h and kernel.ld: the regions are whole pages and lie in this order.
pub record IsLayout (pl : Platform) : Type 0 where
  pub clint : (pl.clint % 4096 ≡ 0) × (pl.clint + 2 ^ 16 ≤ pl.plic)
  pub plic : (pl.plic % 4096 ≡ 0) × (pl.plic + 2 ^ 22 ≤ pl.uart0)
  pub uart0 : (pl.uart0 % 4096 ≡ 0) × (pl.uart0 + 4096 ≤ pl.virtio0)
  pub virtio0 : (pl.virtio0 % 4096 ≡ 0) × (pl.virtio0 + 4096 ≤ pl.kernbase)
  pub text : (pl.kernbase % 4096 ≡ 0) × (pl.kernbase < pl.etext)
  pub ram : (pl.etext % 4096 ≡ 0) × (pl.etext < pl.phystop)
  pub top : (pl.phystop % 4096 ≡ 0) × (pl.phystop ≤ pl.trampoline)
  pub trampoline : (pl.trampoline % 4096 ≡ 0) × (pl.trampoline + 4096 ≤ pl.maxva)
  pub trampoline_pa : pl.trampoline_pa + 4096 ≤ 2 ^ 64
  pub maxva : pl.maxva ≤ 2 ^ 39
  pub down : (x : ℕ) → pl.pground_down x ≡ x / 4096 * 4096

-- a region that is mapped to itself
abbrev direct : (va size : ℕ) → Perm → Region
direct va size perm = record { va = va; size = size; pa = va; perm = perm }

module _ (pl : Platform) where
  abbrev uart : Region
  uart = direct pl.uart0 4096 data_perm

  abbrev virtio : Region
  virtio = direct pl.virtio0 4096 data_perm

  abbrev clint : Region
  clint = direct pl.clint (2 ^ 16) data_perm

  abbrev plic : Region
  plic = direct pl.plic (2 ^ 22) data_perm

  abbrev text : Region
  text = direct pl.kernbase (pl.etext - pl.kernbase) text_perm

  abbrev ram : Region
  ram = direct pl.etext (pl.phystop - pl.etext) data_perm

  abbrev trampoline : Region
  trampoline = record { va = pl.trampoline; size = 4096; pa = pl.trampoline_pa; perm = text_perm }

-- the regions of the table of a process, and of the table of the kernel
abbrev pub process_regions : Platform → List Region
process_regions pl = trampoline pl ∷ ram pl ∷ text pl ∷ plic pl ∷ virtio pl ∷ uart pl ∷ []

abbrev pub kernel_regions : Platform → List Region
kernel_regions pl = trampoline pl ∷ ram pl ∷ text pl ∷ plic pl ∷ clint pl ∷ virtio pl ∷ uart pl ∷ []

module _ {A : Type 0} (al : Allocator A) (pl : Platform) (layout : IsLayout pl) (rank : ℕ → ℕ)
    (s : Memory A) (good : IsAllocator al) where
  abbrev FitsIn : List Region → Region → Type 0
  FitsIn rs r = Fits al rank s good pl layout.maxva layout.down rs r

  uart-Fits : FitsIn [] (uart pl)
  unfolding translated
  uart-Fits = record {
    aligned = ground arith;
    whole = ground arith;
    some_size = ground arith;
    inside = ground arith;
    phys = ground arith;
    apart = λ x h. ground arith;
  }

  virtio-Fits : FitsIn (uart pl ∷ []) (virtio pl)
  unfolding translated
  virtio-Fits = record {
    aligned = ground arith;
    whole = ground arith;
    some_size = ground arith;
    inside = ground arith;
    phys = ground arith;
    apart = λ x h. ground arith;
  }

  clint-Fits : FitsIn (virtio pl ∷ uart pl ∷ []) (clint pl)
  unfolding translated
  clint-Fits = record {
    aligned = ground arith;
    whole = ground arith;
    some_size = ground arith;
    inside = ground arith;
    phys = ground arith;
    apart = λ x h. ground arith;
  }

  -- what is mapped before the kernel lies in the range of the devices
  abbrev AreDevices : List Region → Type 0
  AreDevices rs =
      (x : ℕ) → pl.plic ≤ x → (x < pl.uart0) ⊎ (pl.kernbase ≤ x) → translated rs x ≡ none

  devices-AreDevices : AreDevices (virtio pl ∷ uart pl ∷ [])
  unfolding translated
  devices-AreDevices x above out = ground arith

  clint-AreDevices : AreDevices (clint pl ∷ virtio pl ∷ uart pl ∷ [])
  unfolding translated
  clint-AreDevices x above out = ground arith

  module _ (rs : List Region) (before : AreDevices rs) where
    plic-Fits : FitsIn (rs) (plic pl)
    unfolding translated
    plic-Fits = record {
      aligned = ground arith;
      whole = ground arith;
      some_size = ground arith;
      inside = ground arith;
      phys = ground arith;
      apart = λ x h. ground (arith, before x);
    }

    text-Fits : FitsIn (plic pl ∷ rs) (text pl)
    unfolding translated
    text-Fits = record {
      aligned = ground arith;
      whole = ground arith;
      some_size = ground arith;
      inside = ground arith;
      phys = ground arith;
      apart = λ x h. ground (arith, before x);
    }

    ram-Fits : FitsIn (text pl ∷ plic pl ∷ rs) (ram pl)
    unfolding translated
    ram-Fits = record {
      aligned = ground arith;
      whole = ground arith;
      some_size = ground arith;
      inside = ground arith;
      phys = ground arith;
      apart = λ x h. ground (arith, before x);
    }

    trampoline-Fits : FitsIn (ram pl ∷ text pl ∷ plic pl ∷ rs) (trampoline pl)
    unfolding translated
    trampoline-Fits = record {
      aligned = ground arith;
      whole = ground arith;
      some_size = ground arith;
      inside = ground arith;
      phys = ground arith;
      apart = λ x h. ground (arith, before x);
    }

  module _ (tree : IsTree al rank s) (ne : (al.take s.alloc).0 ≢ 0) where
    abbrev Maps : List Region → ℕ → Memory A → Type 0
    Maps rs root t = MapsRegions al rank s rs root t

    text_size : u64 (pl.etext + 2 ^ 64 - pl.kernbase) ≡ pl.etext - pl.kernbase
    text_size = ground arith

    ram_size : u64 (pl.phystop + 2 ^ 64 - pl.etext) ≡ pl.phystop - pl.etext
    ram_size = ground arith

    kernel_step :
        (rs : List Region) (r : Region)
        → FitsIn rs r
        → (root : ℕ) (t : Memory A) → Maps rs root t
        → (rest : M (Memory A) ℕ) {Q : ℕ → Memory A → Type 0}
        → ((u : Memory A) → Maps (r ∷ rs) root u → Ends Q "kvmmap" (rest u))
        → Ends Q "kvmmap" ((kvmmap al pl root r.va r.pa r.size r.perm >> rest) t)
    kernel_step rs r fits root t m rest next =
        Ends-bind (kvmmap al pl root r.va r.pa r.size r.perm) (λ _. rest)
          (kvmmap-MapsRegions al rank s good pl layout.maxva layout.down rs r fits root t m)
          (λ _ u m'. next u m')

    -- Where `kalloc` has a page, kvminit ends, or panics with "kvmmap". It gives that page as the root of
    -- a new table, which maps the four devices, the kernel's text and the memory to themselves, and the
    -- trampoline to its page, each with its permissions, and nothing else. The page tables are a tree, and
    -- all other tables translate as before.
    pub kvminit-MapsRegions :
        Ends
          (λ root t. (root ≡ (al.take s.alloc).0) × Maps (kernel_regions pl) root t)
          "kvmmap"
          (kvminit al pl s)
    unfolding kvminit
    kvminit-MapsRegions =
        let root = (al.take s.alloc).0 in
        rw text_size (
          rw ram_size (
            kernel_step [] (uart pl) uart-Fits root _ (MapsRegions-new al rank s good tree ne) _
              (λ t1 m1.
                (kernel_step (uart pl ∷ []) (virtio pl) virtio-Fits root t1 m1 _ (λ t2 m2.
                  (kernel_step (virtio pl ∷ uart pl ∷ []) (clint pl) clint-Fits root t2 m2 _
                    (λ t3 m3.
                      (kernel_step (clint pl ∷ virtio pl ∷ uart pl ∷ []) (plic pl)
                        (plic-Fits (clint pl ∷ virtio pl ∷ uart pl ∷ []) clint-AreDevices) root t3
                        m3 _
                        (λ t4 m4.
                          (kernel_step (plic pl ∷ clint pl ∷ virtio pl ∷ uart pl ∷ []) (text pl)
                            (text-Fits (clint pl ∷ virtio pl ∷ uart pl ∷ []) clint-AreDevices) root
                            t4 m4 _
                            (λ t5 m5.
                              (kernel_step (text pl ∷ plic pl ∷ clint pl ∷ virtio pl ∷ uart pl ∷ [])
                                (ram pl)
                                (ram-Fits (clint pl ∷ virtio pl ∷ uart pl ∷ []) clint-AreDevices)
                                root t5 m5 _
                                (λ t6 m6.
                                  (kernel_step
                                    (ram pl
                                      ∷ text pl
                                      ∷ plic pl
                                      ∷ clint pl
                                      ∷ virtio pl
                                      ∷ uart pl
                                      ∷ [])
                                    (trampoline pl)
                                    (trampoline-Fits (clint pl ∷ virtio pl ∷ uart pl ∷ [])
                                      clint-AreDevices)
                                    root t6 m6 _ (λ t7 m7. returned (refl, m7))))))))))))))))

    process_step :
        (rs : List Region) (r : Region)
        → FitsIn rs r
        → (root : ℕ) (t : Memory A) → Maps rs root t
        → (rest : M (Memory A) ℕ) {Q : ℕ → Memory A → Type 0}
        → ((u : Memory A) → Maps (r ∷ rs) root u → Ends Q "proc_kvmmap" (rest u))
        → Ends Q "proc_kvmmap" ((proc_kvmmap al pl root r.va r.pa r.size r.perm >> rest) t)
    process_step rs r fits root t m rest next =
        Ends-bind (proc_kvmmap al pl root r.va r.pa r.size r.perm) (λ _. rest)
          (proc_kvmmap-MapsRegions al rank s good pl layout.maxva layout.down rs r fits root t m)
          (λ _ u m'. next u m')

    -- Where `kalloc` has a page, proc_kvminit ends, or panics with "proc_kvmmap". It gives that page as the root of
    -- a new table, which maps the devices but the CLINT, the kernel's text and the memory to themselves, and the
    -- trampoline to its page, each with its permissions, and nothing else. The page tables are a tree, and
    -- all other tables translate as before.
    pub proc_kvminit-MapsRegions :
        Ends
          (λ root t. (root ≡ (al.take s.alloc).0) × Maps (process_regions pl) root t)
          "proc_kvmmap"
          (proc_kvminit al pl s)
    unfolding proc_kvminit
    proc_kvminit-MapsRegions =
        let root = (al.take s.alloc).0 in
        rw text_size (
          rw ram_size (
            process_step [] (uart pl) uart-Fits root _ (MapsRegions-new al rank s good tree ne) _
              (λ t1 m1.
                (process_step (uart pl ∷ []) (virtio pl) virtio-Fits root t1 m1 _ (λ t2 m2.
                  (process_step (virtio pl ∷ uart pl ∷ []) (plic pl)
                    (plic-Fits (virtio pl ∷ uart pl ∷ []) devices-AreDevices) root t2 m2 _
                    (λ t3 m3.
                      (process_step (plic pl ∷ virtio pl ∷ uart pl ∷ []) (text pl)
                        (text-Fits (virtio pl ∷ uart pl ∷ []) devices-AreDevices) root t3 m3 _
                        (λ t4 m4.
                          (process_step (text pl ∷ plic pl ∷ virtio pl ∷ uart pl ∷ []) (ram pl)
                            (ram-Fits (virtio pl ∷ uart pl ∷ []) devices-AreDevices) root t4 m4 _
                            (λ t5 m5.
                              (process_step (ram pl ∷ text pl ∷ plic pl ∷ virtio pl ∷ uart pl ∷ [])
                                (trampoline pl)
                                (trampoline-Fits (virtio pl ∷ uart pl ∷ []) devices-AreDevices) root
                                t5 m5 _ (λ t6 m6. returned (refl, m6))))))))))))))
