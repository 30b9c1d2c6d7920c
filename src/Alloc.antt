-- ===== src/Alloc.antt =====
-- mmap_alloc.c: the memory for emitted code. The system calls are parameters, over a state of the
-- system: a failed `mmap` or `mremap` gives nothing, `mprotect` its status.
use too_legit_to_jit.Common.{
  ℕ, ◌+◌, Option, none, some, ◌==◌, if◌then◌else◌, assertion, Result, ok, fail,
}

-- `sizeof(size_t)`
abbrev pub size_t_size : ℕ
size_t_size = 4

module _ {System : Type 0} (mmap : (size : ℕ) → System → Option (ℕ × System))
    (mremap : (ptr old_size new_size : ℕ) → System → Option (ℕ × System))
    (mprotect_exec : (mem size : ℕ) → System → ℕ × System)
    (munmap : (mem size : ℕ) → System → System) where
  abbrev mapped : Option (ℕ × System) → Result (ℕ × System)
  mapped none = fail assertion
  mapped (some r) = ok r

  unfoldable pub mmap_alloc : (size : ℕ) → System → Result (ℕ × System)
  mmap_alloc size s = mapped (mmap (size + size_t_size) s)

  -- A null pointer is 0.
  unfoldable pub mmap_realloc : (ptr old_size new_size : ℕ) → System → Result (ℕ × System)
  unfolding mmap_alloc
  mmap_realloc ptr old_size new_size s =
      if ptr == 0 then mmap_alloc new_size s else mapped (mremap ptr old_size new_size s)

  unfoldable pub mmap_execperm : (mem size : ℕ) → System → Result System
  mmap_execperm mem size s =
      let (success, s') = mprotect_exec mem size s in if success == 0 then ok s' else fail assertion

  unfoldable pub mmap_free : (mem size : ℕ) → System → System
  mmap_free mem size s = munmap mem size s
