-- ===== src/Elf/Serialise.antt =====
-- elf.c: the object file as a whole: the string table, the code, the symbols, the section header
-- table, and last the header over the room left for it.
use too_legit_to_jit.Common.{
  ℕ, ◌+◌, ◌-◌, List, [], ◌∷◌, ◌++◌, length, replicate, Result, ok, and_then,
}
use too_legit_to_jit.Emitter.{Emitter32}
use too_legit_to_jit.Jitfunc.{JFuncs, jf_count}
use too_legit_to_jit.Elf.{
  Function, Strings, fputns, jfunc_names, dump_stringtable_protos, sht_null, sht_progbits,
  sht_symtab, sht_strtab, shn_undef, shf_code, ehdr_size, sym_size, char_j, char_a,
}
use too_legit_to_jit.Elf.Dump.{
  ElfMachine, dump_section, dump_symbol, dump_elf_header, dump_symboltable_jfuncs,
  dump_symboltable_protos, dump_sectionentry_protos, dump_section_protos,
}

-- `.text`, `.strtab` and `.symtab`
abbrev pub name_text : List ℕ
name_text = 46 ∷ 116 ∷ 101 ∷ 120 ∷ 116 ∷ []

abbrev pub name_strtab : List ℕ
name_strtab = 46 ∷ 115 ∷ 116 ∷ 114 ∷ 116 ∷ 97 ∷ 98 ∷ []

abbrev pub name_symtab : List ℕ
name_symtab = 46 ∷ 115 ∷ 121 ∷ 109 ∷ 116 ∷ 97 ∷ 98 ∷ []

abbrev pub strtabidx : ℕ
strtabidx = 1

abbrev pub sytabidx : ℕ
sytabidx = 2

-- the sections in front of the first one of a Lua function
abbrev pub luasecstart : ℕ
luasecstart = 4

-- where the names of the sections are in the string table
abbrev pub stridtext : ℕ
stridtext = 1

abbrev pub stridst : ℕ
stridst = 7

abbrev pub stridsyt : ℕ
stridsyt = 15

-- the empty name and those of the sections
unfoldable pub section_names : List ℕ → Strings
unfolding fputns
section_names out =
    fputns name_symtab
      (fputns name_strtab (fputns name_text (fputns [] (record { out = out; stidx = 0 }))))

module _ (decimal : ℕ → List ℕ) (fputs_result : ℕ) where
  -- the names of the shared sections and the functions, with the indices that are kept for them
  unfoldable pub string_table :
      (main : Function) (archn : ℕ) (out : List ℕ) → List ℕ × (Function × List ℕ)
  unfolding section_names jfunc_names dump_stringtable_protos
  string_table main archn out =
      let (names, s) =
        jfunc_names decimal fputs_result (char_j ∷ []) jf_count 0 (section_names out) in
      let (arch_names, s') = jfunc_names decimal fputs_result (char_j ∷ char_a ∷ []) archn 0 s in
      let (main', s'') = dump_stringtable_protos decimal fputs_result main 0 [] s' in
      (names ++ arch_names, (main', s''.out))

  module _ (host : (n x : ℕ) → List ℕ) where
    -- `stend` is the end of the string table, `jfuncoff` too; `syoff` and `syend` bound the
    -- symbols.
    unfoldable pub section_headers :
        (main : Function) (jsection_address jsize stend syoff syend sysz : ℕ) → List ℕ → List ℕ
    unfolding dump_section dump_sectionentry_protos
    section_headers main jsection_address jsize stend syoff syend sysz out =
        dump_sectionentry_protos host main stridtext sytabidx (
          dump_section host stridtext sht_progbits shf_code jsection_address stend jsize sytabidx 0
            0
            (dump_section host stridsyt sht_symtab 0 0 syoff (syend - syoff) strtabidx sysz sym_size
              (dump_section host stridst sht_strtab 0 0 ehdr_size (stend - ehdr_size) shn_undef 0 0
                (dump_section host 0 sht_null 0 0 0 0 shn_undef 0 0 out))))

    -- `jsection` is the code of the shared sections. The room for the header reads as zero.
    unfoldable pub serialise :
        (main : Function) (jsection : List ℕ) (jsection_address : ℕ)
        → ElfMachine
        → (buffer : Emitter32 → ℕ) → JFuncs
        → Emitter32
        → (archn : ℕ) → Result (List ℕ)
    unfolding string_table section_headers dump_symbol dump_elf_header dump_symboltable_jfuncs
        dump_symboltable_protos dump_section_protos
    serialise main jsection jsection_address m buffer t e archn =
        let (names, (named, table)) = string_table main archn (replicate ehdr_size 0) in
        let (placed, code) = dump_section_protos named (table ++ jsection) in
        let syoff = length code in
        and_then
          (dump_symboltable_jfuncs host buffer t e names (sytabidx + 1) archn
            (dump_symbol host 0 0 0 shn_undef code))
          λ (nr_jf, shared).
            let (nr_lsections, (_, symbols)) =
              dump_symboltable_protos host placed luasecstart shared in
            let sysz = 1 + nr_jf + nr_lsections in
            ok (
              dump_elf_header host (4 + nr_lsections) (length symbols) strtabidx m.elf_endian
                m.elf_machine
                (section_headers placed jsection_address (length jsection) (length table) syoff
                  (length symbols) sysz symbols))
