-- ===== src/Loader/Header.antt =====
-- main.c: the header of a bytecode file.
use too_legit_to_jit.Common.{
  ℕ, zero, suc, ◌+◌, ◌≤◌, ◌≡◌, ◌∙◌, sym, refl, Bool, true, false, ◌&&◌, List, [], ◌∷◌, ◌++◌, ◌==◌,
  leb, length, take, drop, ap, ok, arith, tests, Bool-cases, inl, inr, if◌then◌else◌,
}
use too_legit_to_jit.Loader.{
  Reader, give, begins_with, lua_signature, header_fields, luac_tail, luac_headersize, fread,
  validate_header,
}

abbrev pub header : List ℕ
header = lua_signature ++ header_fields ++ luac_tail

begins_with-append :
    (xs ys bs : List ℕ)
    → begins_with (xs ++ ys) bs ≡ begins_with xs bs && begins_with ys (drop (length xs) bs)
begins_with-append [] ys bs = refl
begins_with-append (x ∷ xs) ys [] = refl
begins_with-append (x ∷ xs) ys (b ∷ bs) = elim (Bool-cases (x == b)) [
  | inl y ↦ rw y (begins_with-append xs ys bs)
  | inr n ↦ rw n refl
]

begins_with-eq : (xs bs : List ℕ) → length xs ≡ length bs → begins_with xs bs ≡ true → bs ≡ xs
begins_with-eq [] [] l h = refl
begins_with-eq [] (b ∷ bs) l h = absurd (omega arith)
begins_with-eq (x ∷ xs) [] l h = absurd (omega arith)
begins_with-eq (x ∷ xs) (b ∷ bs) l h = elim (Bool-cases (x == b)) [
  | inl y ↦
      let e : x ≡ b = omega tests in let rest = begins_with-eq xs bs (omega arith) (rw y at h) in cc
  | inr no_same ↦ let e = rw no_same at h in cc
]

begins_with_self : (xs : List ℕ) → begins_with xs xs ≡ true
begins_with_self [] = refl
begins_with_self (x ∷ xs) = let e : (x == x) ≡ true = omega tests in rw e (begins_with_self xs)

fread-ok :
    (file : List ℕ) (n : ℕ) (r : Reader)
    → r.pos + n ≤ length file
    → fread file n r ≡ ok (take n (drop (r.pos) file), record r { pos = r.pos + n })
unfolding fread
fread-ok file n r h = let e : leb (r.pos + n) (length file) ≡ true = ground arith in rw e refl

length-take : (n : ℕ) (xs : List ℕ) → n ≤ length xs → length (take n xs) ≡ n
length-take zero xs h = refl
length-take (suc n) [] h = absurd (omega arith)
length-take (suc n) (x ∷ xs) h = ap suc (length-take n xs (omega arith))

length-drop : (n : ℕ) (xs : List ℕ) → n ≤ length xs → length (drop n xs) + n ≡ length xs
length-drop zero xs h = omega arith
length-drop (suc n) [] h = absurd (omega arith)
length-drop (suc n) (x ∷ xs) h = omega (arith, length-drop n xs (omega arith))

-- the three comparisons of the source, one behind the other
abbrev compared : List ℕ → Bool
compared bytes =
    let seek = drop (length lua_signature) bytes in
    if begins_with lua_signature bytes
    then (if begins_with header_fields seek
        then begins_with luac_tail (drop (length header_fields) seek)
        else false)
    else false

if-and : (p q : Bool) → (if p then q else false) ≡ (p && q)
if-and true q = refl
if-and false q = refl

compared-header : (bytes : List ℕ) → compared bytes ≡ begins_with header bytes
compared-header bytes =
    let seek = drop (length lua_signature) bytes in
    let tail = begins_with luac_tail (drop (length header_fields) seek) in
    if-and (begins_with lua_signature bytes)
      (if begins_with header_fields seek then tail else false)
    ∙ ap (λ b. begins_with lua_signature bytes && b)
        (if-and (begins_with header_fields seek) tail
          ∙ sym (begins_with-append header_fields luac_tail seek))
    ∙ sym (begins_with-append lua_signature (header_fields ++ luac_tail) bytes)

give_if :
    (p q b : Bool) (r : Reader)
    → (if p then (if q then give b else give false) else give false) r
      ≡ ok (if p then (if q then b else false) else false, r)
give_if true true b r = refl
give_if true false b r = refl
give_if false q b r = refl

-- Where the file has another 18 bytes, `validate_header` reads them, and it accepts them if and
-- only if they are the header of Lua 5.2: the signature, the version, the sizes of a 32-bit machine
-- with integers as numbers, and the tail that catches conversion errors.
pub validate_header-header :
    (file : List ℕ) (r : Reader)
    → r.pos + luac_headersize ≤ length file
    → (accepted : Bool) × (validate_header file r
        ≡ ok (accepted, record r { pos = r.pos + luac_headersize }))
      × (accepted ≡ true → take luac_headersize (drop (r.pos) file) ≡ header)
      × (take luac_headersize (drop (r.pos) file) ≡ header → accepted ≡ true)
unfolding validate_header
validate_header-header file r h =
    let bytes = take luac_headersize (drop (r.pos) file) in
    let r' : Reader = record r { pos = r.pos + luac_headersize } in
    let seek = drop (length lua_signature) bytes in
    let enough : luac_headersize ≤ length (drop (r.pos) file) =
      omega (arith, length-drop (r.pos) file (omega arith)) in
    let sizes : length header ≡ length bytes =
      sym (length-take luac_headersize (drop (r.pos) file) enough) in
    (
      compared bytes,
      rw (fread-ok file luac_headersize r h) (
          give_if (begins_with lua_signature bytes) (begins_with header_fields seek)
            (begins_with luac_tail (drop (length header_fields) seek)) r'),
      (λ e. begins_with-eq header bytes sizes (sym (compared-header bytes) ∙ e)),
      (λ e. compared-header bytes ∙ ap (begins_with header) e ∙ begins_with_self header),
    )
