-- ===== src/Elf.antt =====
-- elf.c: the object file that shows the translated code to a disassembler. The file is the list of
-- its bytes. What the C library and the host do are parameters: the digits that `%d` prints, the
-- value that `fputs` returns, and the bytes of a number of `n` bytes in memory.
pub mod Dump
pub mod Serialise
pub mod Names
use too_legit_to_jit.Common.{ℕ, zero, suc, ◌+◌, ◌*◌, ◌%◌, List, [], ◌∷◌, ◌++◌, length, replicate}

-- `struct proto`, with the fields that the dump reads and writes
pub record Section : Type 0 where
  pub code : List ℕ
  pub code_address : ℕ
  pub strtabidx : ℕ
  pub secoff : ℕ
  pub secend : ℕ

mutual
  pub data Function : Type 0 where
    function : Section → Functions → Function

  pub data Functions : Type 0 where
    no_functions : Functions
    and_function : Function → Functions → Functions

-- The file and the index into the string table, which the source counts on its own.
pub record Strings : Type 0 where
  pub out : List ℕ
  pub stidx : ℕ

-- `J`, `A`, `L` and `.`
abbrev pub char_j : ℕ
char_j = 74

abbrev pub char_a : ℕ
char_a = 65

abbrev pub char_l : ℕ
char_l = 76

abbrev pub char_dot : ℕ
char_dot = 46

-- `ELF32_ST_INFO`
unfoldable pub elf32_st_info : (b t : ℕ) → ℕ
elf32_st_info b t = (b * 16 + t % 16) % 256

abbrev pub sht_null : ℕ
sht_null = 0

abbrev pub sht_progbits : ℕ
sht_progbits = 1

abbrev pub sht_symtab : ℕ
sht_symtab = 2

abbrev pub sht_strtab : ℕ
sht_strtab = 3

abbrev pub shn_undef : ℕ
shn_undef = 0

-- `SHF_ALLOC | SHF_EXECINSTR`
abbrev pub shf_code : ℕ
shf_code = 6

abbrev pub stb_local : ℕ
stb_local = 0

abbrev pub stt_func : ℕ
stt_func = 2

-- the sizes of `Elf32_Ehdr`, `Elf32_Phdr`, `Elf32_Shdr` and `Elf32_Sym`
abbrev pub ehdr_size : ℕ
ehdr_size = 52

abbrev pub phdr_size : ℕ
phdr_size = 32

abbrev pub shdr_size : ℕ
shdr_size = 40

abbrev pub sym_size : ℕ
sym_size = 16

-- `fprintf` of a text whose length is added to the index
unfoldable pub print_text : List ℕ → Strings → Strings
print_text text s = record { out = s.out ++ text; stidx = s.stidx + length text }

-- the text and a zero byte
unfoldable pub fputns : List ℕ → Strings → Strings
fputns str s = record { out = s.out ++ str ++ (0 ∷ []); stidx = s.stidx + (length str + 1) }

module _ (decimal : ℕ → List ℕ) (fputs_result : ℕ) where
  -- `fputs( ".", f )`
  unfoldable pub put_dot : Strings → Strings
  put_dot s = record { out = s.out ++ (char_dot ∷ []); stidx = s.stidx + fputs_result }

  unfoldable pub label_loop : (lbl : List ℕ) → Strings → Strings
  unfolding print_text put_dot
  label_loop [] s = s
  label_loop (i ∷ []) s = print_text (decimal i) s
  label_loop (i ∷ j ∷ lbl) s = label_loop (j ∷ lbl) (put_dot (print_text (decimal i) s))

  unfoldable pub dump_label : (lbl : List ℕ) → Strings → Strings
  unfolding print_text fputns label_loop
  dump_label lbl s = fputns [] (label_loop lbl (print_text (char_l ∷ []) s))

  -- The index of a function within its parent is exact as a `float` below 2^24.
  unfoldable mutual
    unfolding dump_label

    pub dump_stringtable_protos :
        (p : Function) (idx : ℕ) (src : List ℕ) → Strings → Function × Strings
    dump_stringtable_protos (function x subp) idx src s =
        let (subp', s') = stringtable_children subp 0 (src ++ (idx ∷ [])) s in
        (function (record x { strtabidx = s'.stidx }) subp', dump_label (src ++ (idx ∷ [])) s')

    pub stringtable_children :
        (ps : Functions) (i : ℕ) (label : List ℕ) → Strings → Functions × Strings
    stringtable_children no_functions i label s = (no_functions, s)
    stringtable_children (and_function p ps) i label s =
        let (p', s') = dump_stringtable_protos p i label s in
        let (ps', s'') = stringtable_children ps (i + 1) label s' in (and_function p' ps', s'')

  -- `n` names from number `i` on: `J` and the number, or `JA` and the number behind a letter
  unfoldable pub jfunc_names : (letters : List ℕ) (n i : ℕ) → Strings → List ℕ × Strings
  unfolding print_text fputns
  jfunc_names letters zero i s = ([], s)
  jfunc_names letters (suc n) i s =
      let (ids, s') =
        jfunc_names letters n (i + 1) (fputns [] (print_text (letters ++ decimal i) s)) in
      (s.stidx ∷ ids, s')
