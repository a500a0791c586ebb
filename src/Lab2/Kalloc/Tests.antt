-- ===== src/Lab2/Kalloc/Tests.antt =====
-- The allocator on a machine of three pages, at 4096, 8192 and 12288.
use hitsz_os.Base.{
  ℕ, ◌+◌, ◌*◌, ◌/◌, ◌%◌, ◌^◌, ◌≡◌, refl, [], ◌∷◌, length, arith, if◌then◌else◌, ◌==◌,
}
use hitsz_os.Base.Kernel.{ok, panic}
use hitsz_os.Pages.{Layout, page_size, is_page}
use hitsz_os.Lab2.Kalloc.{Kmem, kfree, check_freemem}
use hitsz_os.Lab2.Kalloc.Refine.{Holds, Popped, kfree_lem, kalloc_lem}
use hitsz_os.Lab2.Kalloc.Count.{check_freemem_lem}

abbrev toy : Layout
toy = record {
  ncpu = 1;
  kern_end = 4096;
  phystop = 16384;
  pground_up = λ a. (a + 4095) / 4096 * 4096;
}

-- the page at 12288, then the page at 4096
abbrev two_pages : Kmem
two_pages = record { word = λ a. if a == 12288 then 4096 else 0; freelist = 12288 }

two_pages-Holds : Holds toy two_pages (12288 ∷ 4096 ∷ [])
two_pages-Holds = record {
  chain = (refl, omega arith, (refl, omega arith, refl));
  pages = (refl, (refl, tt));
  nodup = (refl, (refl, tt));
}

pushed :
    if is_page toy 8192
    then ((t : Kmem) × (kfree toy 8192 two_pages ≡ ok (tt, t))
        × Holds toy t (8192 ∷ 12288 ∷ 4096 ∷ []))
    else (kfree toy 8192 two_pages ≡ panic "kfree")
pushed = kfree_lem toy two_pages (12288 ∷ 4096 ∷ []) 8192 (omega arith) two_pages-Holds refl

pops_12288 : Popped toy two_pages (12288 ∷ 4096 ∷ [])
pops_12288 = kalloc_lem toy two_pages (12288 ∷ 4096 ∷ []) two_pages-Holds

counted :
    check_freemem toy two_pages
    ≡ ok (length {A = ℕ} (12288 ∷ 4096 ∷ []) * page_size % 2 ^ 32, two_pages)
counted = check_freemem_lem toy two_pages (12288 ∷ 4096 ∷ []) two_pages-Holds
