-- ===== src/Elf/Dump.antt =====
-- elf.c: the symbols, the sections and the whole file. A write at the position `ftell` puts bytes
-- behind those that are there, so that `ftell` is the length of the file.
use too_legit_to_jit.Common.{
  ℕ, zero, suc, ◌+◌, ◌-◌, List, ◌∷◌, ◌++◌, length, get_or, replicate, drop, Result, ok, and_then,
}
use too_legit_to_jit.Word.{sub32}
use too_legit_to_jit.Emitter.{Emitter32}
use too_legit_to_jit.Jitfunc.{JFuncs, jfunc_addr, jf_count}
use too_legit_to_jit.Elf.{
  Function, Functions, function, no_functions, and_function, elf32_st_info, sht_progbits, shf_code,
  stb_local, stt_func, ehdr_size, phdr_size, shdr_size,
}

-- `struct machine`, with the fields that the dump reads
pub record ElfMachine : Type 0 where
  pub elf_machine : ℕ
  pub elf_endian : ℕ

module _ (host : (n x : ℕ) → List ℕ) where
  unfoldable pub dump_section :
      (name type flags addr off size link info esize : ℕ) → List ℕ → List ℕ
  dump_section name type flags addr off size link info esize out =
      out
      ++ (host 4 name
          ++ (host 4 type
              ++ (host 4 flags
                  ++ (host 4 addr
                      ++ (host 4 off
                          ++ (host 4 size
                              ++ (host 4 link ++ (host 4 info ++ (host 4 0 ++ host 4 esize)))))))))

  -- The source returns 1 for the symbol.
  unfoldable pub dump_symbol : (name value info secidx : ℕ) → List ℕ → List ℕ
  dump_symbol name value info secidx out =
      out
      ++ (host 4 name
          ++ (host 4 value ++ (host 4 0 ++ (host 1 info ++ (host 1 0 ++ host 2 secidx)))))

  unfoldable pub dump_symbol_localfunc : (name value secidx : ℕ) → List ℕ → List ℕ
  unfolding dump_symbol elf32_st_info
  dump_symbol_localfunc name value secidx =
      dump_symbol name value (elf32_st_info stb_local stt_func) secidx

  -- the bytes of the header; what `e_ident` does not name is zero
  unfoldable pub elf_header : (nr_sections sechdroff strtabidx endian mach : ℕ) → List ℕ
  elf_header nr_sections sechdroff strtabidx endian mach =
      (127 ∷ 69 ∷ 76 ∷ 70 ∷ 1 ∷ endian ∷ 1 ∷ replicate 9 0)
      ++ (host 2 1
          ++ (host 2 mach
              ++ (host 4 1
                  ++ (host 4 0
                      ++ (host 4 0
                          ++ (host 4 sechdroff
                              ++ (host 4 0
                                  ++ (host 2 ehdr_size
                                      ++ (host 2 phdr_size
                                          ++ (host 2 0
                                              ++ (host 2 shdr_size
                                                  ++ (host 2 nr_sections
                                                      ++ host 2 strtabidx))))))))))))

  -- over the first bytes of the file
  unfoldable pub dump_elf_header :
      (nr_sections sechdroff strtabidx endian mach : ℕ) → List ℕ → List ℕ
  unfolding elf_header
  dump_elf_header nr_sections sechdroff strtabidx endian mach out =
      elf_header nr_sections sechdroff strtabidx endian mach ++ drop ehdr_size out

  -- `n` sections from number `i` on; `names` are their indices into the string table
  unfoldable pub jfunc_symbols :
      (buffer : Emitter32 → ℕ)
      → JFuncs
      → Emitter32
      → (names : List ℕ) → (secidx n i : ℕ) → List ℕ
      → Result (List ℕ)
  unfolding jfunc_addr dump_symbol_localfunc
  jfunc_symbols buffer t e names secidx zero i out = ok out
  jfunc_symbols buffer t e names secidx (suc n) i out = and_then (jfunc_addr buffer t e i) λ a.
      and_then (jfunc_addr buffer t e 0) λ a₀.
        jfunc_symbols buffer t e names secidx n (i + 1)
          (dump_symbol_localfunc (get_or names i 0) (sub32 a a₀) secidx out)

  -- The source counts `JF_COUNT` symbols, also where the machine has sections of its own.
  unfoldable pub dump_symboltable_jfuncs :
      (buffer : Emitter32 → ℕ)
      → JFuncs
      → Emitter32
      → (names : List ℕ) → (secidx archn : ℕ) → List ℕ
      → Result (ℕ × List ℕ)
  unfolding jfunc_symbols
  dump_symboltable_jfuncs buffer t e names secidx archn out =
      and_then (jfunc_symbols buffer t e names secidx (jf_count + archn) 0 out)
        λ out'. ok (jf_count, out')

  -- the number of symbols, the next section and the file
  unfoldable mutual
    unfolding dump_symbol_localfunc

    pub dump_symboltable_protos : (p : Function) (secidx : ℕ) → List ℕ → ℕ × (ℕ × List ℕ)
    dump_symboltable_protos (function x subp) secidx out =
        let (count, (secidx', out')) = symboltable_children subp secidx out in
        (count + 1, (secidx' + 1, dump_symbol_localfunc x.strtabidx 0 secidx' out'))

    pub symboltable_children : (ps : Functions) (secidx : ℕ) → List ℕ → ℕ × (ℕ × List ℕ)
    symboltable_children no_functions secidx out = (0, (secidx, out))
    symboltable_children (and_function p ps) secidx out =
        let (count, (secidx', out')) = dump_symboltable_protos p secidx out in
        let (counts, (secidx'', out'')) = symboltable_children ps secidx' out' in
        (count + counts, (secidx'', out''))

  unfoldable mutual
    unfolding dump_section

    pub dump_sectionentry_protos : (p : Function) (stridtext sytabidx : ℕ) → List ℕ → List ℕ
    dump_sectionentry_protos (function x subp) stridtext sytabidx out =
        dump_section stridtext sht_progbits shf_code x.code_address x.secoff (x.secend - x.secoff)
          sytabidx 0 0 (sectionentry_children subp stridtext sytabidx out)

    pub sectionentry_children : (ps : Functions) (stridtext sytabidx : ℕ) → List ℕ → List ℕ
    sectionentry_children no_functions stridtext sytabidx out = out
    sectionentry_children (and_function p ps) stridtext sytabidx out =
        sectionentry_children ps stridtext sytabidx
          (dump_sectionentry_protos p stridtext sytabidx out)

unfoldable mutual
  pub dump_section_protos : Function → List ℕ → Function × List ℕ
  dump_section_protos (function x subp) out =
      let (subp', out') = section_children subp out in
      (
        function (record x { secoff = length out'; secend = length (out' ++ x.code) }) subp',
        out' ++ x.code,
      )

  pub section_children : Functions → List ℕ → Functions × List ℕ
  section_children no_functions out = (no_functions, out)
  section_children (and_function p ps) out =
      let (p', out') = dump_section_protos p out in
      let (ps', out'') = section_children ps out' in (and_function p' ps', out'')
