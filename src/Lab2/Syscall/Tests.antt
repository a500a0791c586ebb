-- ===== src/Lab2/Syscall/Tests.antt =====
-- A process that calls `trace`, and small runs of the other functions.
use hitsz_os.Base.{
  ℕ, suc, ◌+◌, ◌^◌, ◌≡◌, refl, false, none, some, arith, ◌==◌, ltb, if◌then◌else◌, [],
}
use hitsz_os.Base.Kernel.{ok, M}
use hitsz_os.Lab2.Syscall.{unused, running, Proc, Kernel, fetchaddr, syscall, sys_trace}
use hitsz_os.Lab2.Syscall.Trace.{fetchaddr_lem, served, syscall-served}

abbrev caller : Proc
caller = record {
  state = running;
  pid = 3;
  sz = 8192;
  pagetable = 1;
  mask = 0;
  a = λ i. if i == 0 then 4194304 else if i == 7 then 22 else 0;
  killed = false;
  ofile = λ fd. if ltb fd 3 then suc fd else 0;
}

abbrev free_entry : Proc
free_entry = record caller { state = unused }

abbrev kernel : Kernel ℕ
kernel = record {
  proc = λ i. if i == 0 then caller else free_entry;
  current = 0;
  console = [];
  rest = 5;
}

abbrev calls : ℕ → M (Kernel ℕ) ℕ
calls num = if num == 22 then sys_trace else λ s. ok (1, s)

fetched : fetchaddr (λ p a v. some (a + v)) 8184 kernel ≡ ok (some 8189, kernel)
fetched = fetchaddr_lem (λ p a v. some (a + v)) 8184 kernel (omega arith)

abbrev getpid_caller : Kernel ℕ
getpid_caller = record kernel {
  proc = λ i. record caller { mask = 2 ^ 11; a = λ i. if i == 7 then 11 else 8 };
}

served_11 : syscall calls getpid_caller ≡ served calls getpid_caller (some "sys_getpid")
served_11 = syscall-served calls getpid_caller

-- the first number behind the table
abbrev stranger : Kernel ℕ
stranger = record kernel { proc = λ i. record caller { a = λ i. 24 } }

alien_24 : syscall calls stranger ≡ served calls stranger none
unfolding syscall
alien_24 = refl
