-- ===== src/Elf/Names.antt =====
-- elf.c: what stands in the string table.
use mathlib.Core.List.{append_assoc, append-nil}
use too_legit_to_jit.Common.{
  ℕ, zero, suc, ◌+◌, ◌≡◌, ◌∙◌, refl, sym, ap, List, [], ◌∷◌, ◌++◌, length, length-append, arith,
}
use too_legit_to_jit.Elf.{
  Function, Functions, function, no_functions, and_function, Strings, char_l, char_dot, char_j,
  char_a, print_text, fputns, put_dot, label_loop, dump_label, jfunc_names, dump_stringtable_protos,
  stringtable_children,
}
use too_legit_to_jit.Jitfunc.{jf_count}
use too_legit_to_jit.Elf.Serialise.{
  section_names, name_text, name_strtab, name_symtab, string_table,
}

-- the bytes of some texts, each with a zero byte behind it
unfoldable pub strings : List (List ℕ) → List ℕ
strings [] = []
strings (t ∷ ts) = t ++ (0 ∷ strings ts)

-- where each of the texts begins, if the first begins at `i`
unfoldable pub starts : (i : ℕ) → List (List ℕ) → List ℕ
starts i [] = []
starts i (t ∷ ts) = i ∷ starts (i + (length t + 1)) ts

strings-append : (ts us : List (List ℕ)) → strings (ts ++ us) ≡ strings ts ++ strings us
unfolding strings
strings-append [] us = refl
strings-append (t ∷ ts) us =
    ap (λ o. t ++ (0 ∷ o)) (strings-append ts us)
    ∙ sym (append_assoc t (0 ∷ strings ts) (strings us))

starts-append :
    (i : ℕ) (ts us : List (List ℕ))
    → starts i (ts ++ us) ≡ starts i ts ++ starts (i + length (strings ts)) us
unfolding starts strings
starts-append i [] us = ap (λ k. starts k us) (omega arith)
starts-append i (t ∷ ts) us =
    let there : i + (length t + 1) + length (strings ts) ≡ i + length (t ++ (0 ∷ strings ts)) =
      omega (arith, length-append t (0 ∷ strings ts)) in
    ap (λ r. i ∷ r)
      (starts-append (i + (length t + 1)) ts us
        ∙ ap (λ k. starts (i + (length t + 1)) ts ++ starts k us) there)

-- `s'` is `s` with the texts behind it
abbrev Writes : List (List ℕ) → (s s' : Strings) → Type 0
Writes ts s s' = s'.out ≡ s.out ++ strings ts

-- and the index has moved by their length
abbrev Counts : List (List ℕ) → (s s' : Strings) → Type 0
Counts ts s s' = Writes ts s s' × (s'.stidx ≡ s.stidx + length (strings ts))

Writes-append :
    (ts us : List (List ℕ)) (s s' s'' : Strings)
    → Writes ts s s'
    → Writes us s' s''
    → Writes (ts ++ us) s s''
Writes-append ts us s s' s'' h h' =
    h'
    ∙ ap (λ o. o ++ strings us) h
    ∙ append_assoc s.out (strings ts) (strings us)
    ∙ ap (λ o. s.out ++ o) (sym (strings-append ts us))

Counts-append :
    (ts us : List (List ℕ)) (s s' s'' : Strings)
    → Counts ts s s'
    → Counts us s' s''
    → Counts (ts ++ us) s s''
Counts-append ts us s s' s'' (w, c) (w', c') = (
  Writes-append ts us s s' s'' w w',
  let split = ap (λ (o : List ℕ). length o) (strings-append ts us) in
      omega (arith, c, c', split, length-append (strings ts) (strings us)),
)

Writes-nil : (s : Strings) → Writes [] s s
unfolding strings
Writes-nil s = sym (append-nil s.out)

-- one text is written in two parts
Counts-one :
    (t : List ℕ) (s : Strings)
    → Counts (t ∷ []) s (fputns [] (print_text t s)) × Counts (t ∷ []) s (fputns t s)
unfolding strings print_text fputns
Counts-one t s =
    let size = length-append t (0 ∷ []) in
    (
      (
        ap (λ o. o ++ (0 ∷ [])) (append-nil (s.out ++ t)) ∙ append_assoc s.out t (0 ∷ []),
        omega (arith, size),
      ),
      (append_assoc s.out t (0 ∷ []), omega (arith, size)),
    )

abbrev pub section_texts : List (List ℕ)
section_texts = [] ∷ name_text ∷ name_strtab ∷ name_symtab ∷ []

section_names-Counts :
    (out : List ℕ) → Counts section_texts (record { out = out; stidx = 0 }) (section_names out)
unfolding section_names
section_names-Counts out =
    let s₀ : Strings = record { out = out; stidx = 0 } in
    let s₁ = fputns [] s₀ in
    let s₂ = fputns name_text s₁ in
    let s₃ = fputns name_strtab s₂ in
    let s₄ = fputns name_symtab s₃ in
    Counts-append ([] ∷ []) (name_text ∷ name_strtab ∷ name_symtab ∷ []) s₀ s₁ s₄
      (Counts-one [] s₀).1
      (Counts-append (name_text ∷ []) (name_strtab ∷ name_symtab ∷ []) s₁ s₂ s₄
        (Counts-one name_text s₁).1
        (Counts-append (name_strtab ∷ []) (name_symtab ∷ []) s₂ s₃ s₄ (Counts-one name_strtab s₂).1
          (Counts-one name_symtab s₃).1))

module _ (decimal : ℕ → List ℕ) where
  -- the numbers with dots between them
  unfoldable pub dotted : List ℕ → List ℕ
  dotted [] = []
  dotted (i ∷ []) = decimal i
  dotted (i ∷ j ∷ lbl) = decimal i ++ (char_dot ∷ dotted (j ∷ lbl))

  -- the letters and a number, for `n` numbers from `i` on
  unfoldable pub numbered : (letters : List ℕ) (n i : ℕ) → List (List ℕ)
  numbered letters zero i = []
  numbered letters (suc n) i = (letters ++ decimal i) ∷ numbered letters n (i + 1)

  -- The letter L and the path of each function from the main function; a function comes behind
  -- those within it.
  unfoldable mutual
    unfolding dotted

    pub paths : (idx : ℕ) (src : List ℕ) → Function → List (List ℕ)
    paths idx src (function x subp) =
        paths_below 0 (src ++ (idx ∷ [])) subp ++ ((char_l ∷ dotted (src ++ (idx ∷ []))) ∷ [])

    pub paths_below : (i : ℕ) (label : List ℕ) → Functions → List (List ℕ)
    paths_below i label no_functions = []
    paths_below i label (and_function p ps) = paths i label p ++ paths_below (i + 1) label ps

  -- the texts of the shared sections: J and a number, and JA and a number for those of the machine
  unfoldable pub section_labels : (archn : ℕ) → List (List ℕ)
  unfolding numbered
  section_labels archn =
      numbered (char_j ∷ []) jf_count 0 ++ numbered (char_j ∷ char_a ∷ []) archn 0

  module _ (r : ℕ) where
    label_loop-out :
        (lbl : List ℕ) (s : Strings) → (label_loop decimal r lbl s).out ≡ s.out ++ dotted lbl
    unfolding label_loop dotted put_dot print_text
    label_loop-out [] s = sym (append-nil s.out)
    label_loop-out (i ∷ []) s = refl
    label_loop-out (i ∷ j ∷ lbl) s =
        label_loop-out (j ∷ lbl) (put_dot decimal r (print_text (decimal i) s))
        ∙ append_assoc (s.out ++ decimal i) (char_dot ∷ []) (dotted (j ∷ lbl))
        ∙ append_assoc s.out (decimal i) (char_dot ∷ dotted (j ∷ lbl))

    dump_label-Writes :
        (lbl : List ℕ) (s : Strings)
        → Writes ((char_l ∷ dotted lbl) ∷ []) s (dump_label decimal r lbl s)
    unfolding dump_label print_text fputns strings
    dump_label-Writes lbl s =
        let begun = s.out ++ (char_l ∷ []) in
        ap (λ o. (o ++ []) ++ (0 ∷ [])) (label_loop-out lbl (print_text (char_l ∷ []) s))
        ∙ ap (λ o. o ++ (0 ∷ [])) (append-nil (begun ++ dotted lbl))
        ∙ append_assoc begun (dotted lbl) (0 ∷ [])
        ∙ append_assoc s.out (char_l ∷ []) (dotted lbl ++ (0 ∷ []))

    mutual
      unfolding dump_stringtable_protos paths

      protos-Writes :
          (p : Function) (idx : ℕ) (src : List ℕ) (s : Strings)
          → Writes (paths idx src p) s (dump_stringtable_protos decimal r p idx src s).1
      protos-Writes (function x subp) idx src s =
          let label = src ++ (idx ∷ []) in
          let s' = (stringtable_children decimal r subp 0 label s).1 in
          Writes-append (paths_below 0 label subp) ((char_l ∷ dotted label) ∷ []) s s'
            (dump_label decimal r label s') (children-Writes subp 0 label s)
            (dump_label-Writes label s')

      children-Writes :
          (ps : Functions) (i : ℕ) (label : List ℕ) (s : Strings)
          → Writes (paths_below i label ps) s (stringtable_children decimal r ps i label s).1
      children-Writes no_functions i label s = Writes-nil s
      children-Writes (and_function p ps) i label s =
          let s' = (dump_stringtable_protos decimal r p i label s).1 in
          Writes-append (paths i label p) (paths_below (i + 1) label ps) s s'
            (stringtable_children decimal r ps (i + 1) label s').1 (protos-Writes p i label s)
            (children-Writes ps (i + 1) label s')

    jfunc_names-starts :
        (letters : List ℕ) (n i : ℕ) (s : Strings)
        → Counts (numbered letters n i) s (jfunc_names decimal r letters n i s).1
          × ((jfunc_names decimal r letters n i s).0 ≡ starts s.stidx (numbered letters n i))
    unfolding jfunc_names numbered starts strings
    jfunc_names-starts letters zero i s = ((sym (append-nil s.out), omega arith), refl)
    jfunc_names-starts letters (suc n) i s =
        let t = letters ++ decimal i in
        let s' = fputns [] (print_text t s) in
        let one = (Counts-one t s).0 in
        let (rest, ids) = jfunc_names-starts letters n (i + 1) s' in
        (
          Counts-append (t ∷ []) (numbered letters n (i + 1)) s s'
              (jfunc_names decimal r letters n (i + 1) s').1 one rest,
          ap (λ l. s.stidx ∷ l)
              (ids ∙ ap (λ k. starts k (numbered letters n (i + 1))) (omega arith)),
        )

-- The string table is these texts, each with a zero byte behind it: the names of the sections, the
-- names of the shared code sections, and for each function the letter L and its path from the main
-- function, as numbers with dots between them, a function behind those within it. The index that is
-- kept for each shared code section is where its name begins in the table.
pub string_table-strings :
    (decimal : ℕ → List ℕ) (fputs_result : ℕ) (main : Function) (archn : ℕ) (out : List ℕ)
    → ((string_table decimal fputs_result main archn out).1.1
        ≡ out
          ++ strings (section_texts ++ (section_labels decimal archn ++ paths decimal 0 [] main)))
      × ((string_table decimal fputs_result main archn out).0
          ≡ starts (length (strings section_texts)) (section_labels decimal archn))
unfolding string_table section_labels
string_table-strings decimal r main archn out =
    let s₀ : Strings = record { out = out; stidx = 0 } in
    let s = section_names out in
    let js = numbered decimal (char_j ∷ []) jf_count 0 in
    let jas = numbered decimal (char_j ∷ char_a ∷ []) archn 0 in
    let s₁ = (jfunc_names decimal r (char_j ∷ []) jf_count 0 s).1 in
    let s₂ = (jfunc_names decimal r (char_j ∷ char_a ∷ []) archn 0 s₁).1 in
    let s₃ = (dump_stringtable_protos decimal r main 0 [] s₂).1 in
    let (sections, counted) = section_names-Counts out in
    let ((shared, counted'), ids) = jfunc_names-starts decimal r (char_j ∷ []) jf_count 0 s in
    let ((arch, _), ids') = jfunc_names-starts decimal r (char_j ∷ char_a ∷ []) archn 0 s₁ in
    let labels : Writes (js ++ jas) s s₂ = Writes-append js jas s s₁ s₂ shared arch in
    let names = paths decimal 0 [] main in
    let size = length (strings section_texts) in
    let at : s.stidx ≡ size = omega (arith, counted) in
    let at' : s₁.stidx ≡ size + length (strings js) = omega (arith, counted, counted') in
    (
      Writes-append section_texts ((js ++ jas) ++ names) s₀ s s₃ sections
          (Writes-append (js ++ jas) names s s₂ s₃ labels (protos-Writes decimal r main 0 [] s₂)),
      ap (λ l. l ++ (jfunc_names decimal r (char_j ∷ char_a ∷ []) archn 0 s₁).0)
            (ids ∙ ap (λ k. starts k js) at)
          ∙ ap (λ l. starts size js ++ l) (ids' ∙ ap (λ k. starts k jas) at')
          ∙ sym (starts-append size js jas),
    )
