-- ===== src/Lab3/Kalloc/Tests.antt =====
-- The allocator on a machine of two CPUs and three pages, at 4096, 8192 and 12288.
use hitsz_os.Base.{ℕ, if◌then◌else◌, ◌+◌, ◌*◌, ◌/◌, ◌≡◌, refl, [], leb, ◌&&◌, arith, ◌≢◌}
use hitsz_os.Base.Kernel.{Returns, ok, panic, ◌>>◌}
use hitsz_os.Base.Sets.{has}
use hitsz_os.Pages.{Layout, page_size, is_page}
use hitsz_os.Lab3.Kalloc.{Kmems, kfree, kalloc, kinit}
use hitsz_os.Lab3.Kalloc.Pool.{Pool, Implements, give, take_first, visits}
use hitsz_os.Lab3.Kalloc.Free.{freed, freed-Implements, kfree-give}
use hitsz_os.Lab3.Kalloc.Take.{Gives}
use hitsz_os.Lab3.Kalloc.Alloc.{order, kalloc-take_first, kalloc-kfree}
use hitsz_os.Lab3.Kalloc.Locks.{quiet, Obeys, kalloc-Obeys}
use hitsz_os.Lab3.Kalloc.Boot.{IsLayout, empty-Implements, kinit-Implements}

abbrev toy : Layout
toy = record {
  ncpu = 2;
  kern_end = 4096;
  phystop = 16384;
  pground_up = λ a. (a + 4095) / 4096 * 4096;
}

toy-IsLayout : IsLayout toy
toy-IsLayout = record { end_pos = omega arith; end_le = omega arith; round_up = λ a h. refl }

abbrev blank : Kmems
blank = record { word = λ _. 0; freelist = λ _. 0; calls = [] }

abbrev no_pages : Pool
no_pages = λ _. []

blank-Implements : Implements toy blank no_pages
blank-Implements = empty-Implements blank (λ k. refl)

-- one page, on the list of CPU 1
abbrev one_page : Kmems
one_page = freed 1 8192 blank

one_page-Implements : Implements toy one_page (give no_pages 1 8192)
one_page-Implements =
    freed-Implements toy blank-Implements 1 8192 (omega arith) (omega arith) refl (λ k. refl)

-- CPU 0 has no page and takes that of CPU 1.
stolen_page : Gives toy (take_first (give no_pages 1 8192) (order toy 0)) (kalloc toy 0 one_page)
stolen_page = kalloc-take_first 0 one_page-Implements

took_8192 : (take_first (give no_pages 1 8192) (order toy 0)).0 ≡ 8192
unfolding take_first visits
took_8192 = refl

freed_page :
    if is_page toy 8192
    then ((t : Kmems) × (kfree toy 1 8192 blank ≡ ok (tt, t))
        × Implements toy t (give no_pages 1 8192))
    else (kfree toy 1 8192 blank ≡ panic "kfree")
freed_page = kfree-give toy 1 8192 blank-Implements (omega arith) (omega arith) (λ k. refl)

back_again :
    (t : Kmems) × ((kfree toy 0 4096 >> kalloc toy 0) one_page ≡ ok (4096, t))
    × Implements toy t (give no_pages 1 8192)
back_again =
    kalloc-kfree 0 4096 one_page-Implements (omega arith) (omega arith) (λ k. ground arith) refl

legal_calls : Returns (λ _ t. Obeys (quiet 0) (quiet 0) t) (kalloc toy 0 blank)
legal_calls = kalloc-Obeys (quiet 0) toy 0 0 blank refl

booted :
    Returns
      (λ _ t.
        (g : Pool) × Implements toy t g
        × ((x : ℕ) → has x (g 0) ≡ (is_page toy x && leb (x + page_size) 16384))
        × ((k : ℕ) → 0 ≢ k → g k ≡ []))
      (kinit toy 0 blank)
booted = kinit-Implements toy toy-IsLayout 0 (omega arith) blank (λ k. refl)
