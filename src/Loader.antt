-- ===== src/Loader.antt =====
-- main.c: reading a file of Lua bytecode. A file is a list of bytes; the code of each function gets
-- an emitter of its own, while the machine is the same throughout. `int` and `size_t` have 4 bytes,
-- the lowest first, as the header demands.
pub mod Code
pub mod Header
use too_legit_to_jit.Common.{
  ℕ, zero, suc, ◌+◌, ◌-◌, ◌*◌, Bool, true, false, not, ◌&&◌, List, [], ◌∷◌, ltb, leb, ◌==◌,
  if◌then◌else◌, length, get_or, take, drop, replicate, assertion, undefined, Result, ok, fail,
  and_then,
}
use too_legit_to_jit.Word.{sub32, is_negative}
use too_legit_to_jit.Operand.{op_target_immed}
use too_legit_to_jit.Machine.{Machine, Frame}
use too_legit_to_jit.Frame.{setk_number, setk_string}
use too_legit_to_jit.Object.{lua_tstring}
use too_legit_to_jit.Upvalues.{UpvalDesc}

-- the place in the file, and the machine
pub record Reader : Type 0 where
  pub pos : ℕ
  pub machine : Machine

abbrev pub Load : Type 0 → Type 0
Load A = Reader → Result (A × Reader)

abbrev pub give : {A : Type 0} → A → Load A
give a r = ok (a, r)

infixl 5 ◌>>=◌ ◌>>◌
abbrev pub ◌>>=◌ : {A B : Type 0} → Load A → (A → Load B) → Load B
◌>>=◌ m f r = and_then (m r) λ x. f x.0 x.1

abbrev pub ◌>>◌ : {B : Type 0} → Load (Unit {0}) → Load B → Load B
m >> k = m >>= λ _. k

abbrev pub require : Bool → Load (Unit {0})
require test r = if test then ok (tt, r) else fail assertion

abbrev pub lift {ℓ} : {A : Type ℓ} → Result A → Reader → Result (A × Reader)
lift m r = and_then m λ a. ok (a, r)

-- an `int` as the bound of a loop that counts from 0
abbrev pub count : ℕ → ℕ
count n = if is_negative n then 0 else n

abbrev pub word_of : List ℕ → ℕ
word_of [] = 0
word_of (b ∷ bs) = b + 256 * word_of bs

-- `LUA_SIGNATURE`, what follows it, and `LUAC_TAIL`
abbrev pub lua_signature : List ℕ
lua_signature = 27 ∷ 76 ∷ 117 ∷ 97 ∷ []

abbrev pub header_fields : List ℕ
header_fields = 82 ∷ 0 ∷ 1 ∷ 4 ∷ 4 ∷ 4 ∷ 4 ∷ 1 ∷ []

abbrev pub luac_tail : List ℕ
luac_tail = 25 ∷ 147 ∷ 13 ∷ 10 ∷ 26 ∷ 10 ∷ []

abbrev pub luac_headersize : ℕ
luac_headersize = 18

-- whether `memcmp` of a constant with the bytes that begin there gives 0
abbrev pub begins_with : List ℕ → List ℕ → Bool
begins_with [] bs = true
begins_with (x ∷ xs) [] = false
begins_with (x ∷ xs) (b ∷ bs) = (x == b) && begins_with xs bs

-- `fr->consts` before the loop, whose contents are not set
unfoldable pub init_consts : Frame → ℕ → Frame
init_consts f n = record f {
  consts = replicate n (record { value = op_target_immed 0; type = op_target_immed 0 });
}

-- `LUA_TNUMBER` as main.c defines it anew, which is the tag in a file; frame.c has its own
abbrev pub file_tnumber : ℕ
file_tnumber = 3

-- `fseek` from the place where it is
unfoldable pub skip_bytes : (n : ℕ) → Load (Unit {0})
skip_bytes n r = ok (tt, record r { pos = r.pos + n })

module _ (file : List ℕ) where
  -- The source does not look whether the bytes are there, and goes on with what the memory holds.
  unfoldable pub fread : (n : ℕ) → Load (List ℕ)
  fread n r =
      if leb (r.pos + n) (length file)
      then ok (take n (drop r.pos file), record r { pos = r.pos + n })
      else fail undefined

  unfoldable pub fread_int : Load ℕ
  unfolding fread
  fread_int = do bytes ← fread 4; give (word_of bytes)

  unfoldable pub fread_byte : Load ℕ
  unfolding fread
  fread_byte = do bytes ← fread 1; give (word_of bytes)

  -- Whether the header is accepted: the function returns 0.
  unfoldable pub validate_header : Load Bool
  validate_header = do
    header ← fread luac_headersize
    let seek = drop (length lua_signature) header
    if begins_with lua_signature header
        then (if begins_with header_fields seek
            then give (begins_with luac_tail (drop (length header_fields) seek))
            else give false)
        else give false

  -- `address` is where the memory for a string is; a string without bytes is a null pointer
  unfoldable pub load_constants_from : (address : List ℕ → ℕ) (left i : ℕ) → Frame → Load Frame
  unfolding fread
  load_constants_from address zero i f = give f
  load_constants_from address (suc left) i f = do
    t ← fread_byte
    f' ←
        (if t == file_tnumber
          then (do k ← fread_int; lift (setk_number f i k))
          else if t == lua_tstring
          then (do
            sz ← fread_int
            str ← fread sz
            lift (setk_string f i (if sz == 0 then 0 else address str)))
          else lift (fail assertion))
    load_constants_from address left (i + 1) f'

  unfoldable pub load_constants : (address : List ℕ → ℕ) → Frame → Load Frame
  unfolding load_constants_from init_consts
  load_constants address f = do
    nrconstants ← fread_int
    load_constants_from address (count nrconstants) 0 (init_consts f nrconstants)

  -- The bytes that are kept.
  unfoldable pub load_static_string : (len : ℕ) → Load (List ℕ)
  unfolding fread skip_bytes
  load_static_string len = do
    size ← fread_int
    buffer ← fread (if ltb len size then len else size)
    skip_bytes (count (sub32 size len))
    give buffer

  unfoldable pub skip_localvars : (n : ℕ) → Load (Unit {0})
  unfolding load_static_string skip_bytes
  skip_localvars zero = give tt
  skip_localvars (suc n) = do _ ← load_static_string 32; skip_bytes (2 * 4); skip_localvars n

  unfoldable pub skip_names : (n : ℕ) → Load (Unit {0})
  unfolding load_static_string
  skip_names zero = give tt
  skip_names (suc n) = do _ ← load_static_string 32; skip_names n

  unfoldable pub ignore_debug : Load (Unit {0})
  unfolding load_static_string skip_bytes skip_localvars skip_names
  ignore_debug = do
    _ ← load_static_string 32
    nr_lineinfo ← fread_int
    skip_bytes (nr_lineinfo * 4)
    nr_localvars ← fread_int
    skip_localvars (count nr_localvars)
    nr_upvalues ← fread_int
    skip_names (count nr_upvalues)

  abbrev pub upval_descs : List ℕ → List UpvalDesc
  upval_descs (instack ∷ idx ∷ bs) =
      record { instack = not (instack == 0); idx = idx } ∷ upval_descs bs
  upval_descs bs = []

  unfoldable pub load_upvalues : Load (List UpvalDesc)
  unfolding fread
  load_upvalues = do
    sizeupvalues ← fread_int
    bytes ← fread (2 * sizeupvalues)
    give (upval_descs bytes)
