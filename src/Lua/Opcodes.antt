-- ===== src/Lua/Opcodes.antt =====
-- include/lopcodes.h: the words of Lua instructions, and their operation codes.
pub mod Fields
use Prim.Native.Nat.{bit_or}
use too_legit_to_jit.Common.{ℕ, ◌+◌, ◌-◌, ◌*◌, ◌/◌, ◌%◌, ◌^◌}
use too_legit_to_jit.Word.{add32, sub32}

-- The sizes and places of the fields, `MAXARG_sBx`, and `LFIELDS_PER_FLUSH`.
abbrev pub size_c : ℕ
size_c = 9

abbrev pub size_b : ℕ
size_b = 9

abbrev pub size_bx : ℕ
size_bx = 18

abbrev pub size_a : ℕ
size_a = 8

abbrev pub size_op : ℕ
size_op = 6

abbrev pub pos_op : ℕ
pos_op = 0

abbrev pub pos_a : ℕ
pos_a = 6

abbrev pub pos_c : ℕ
pos_c = 14

abbrev pub pos_b : ℕ
pos_b = 23

abbrev pub pos_bx : ℕ
pos_bx = 14

abbrev pub size_ax : ℕ
size_ax = 26

abbrev pub pos_ax : ℕ
pos_ax = 6

abbrev pub maxarg_sbx : ℕ
maxarg_sbx = 131071

abbrev pub lfields_per_flush : ℕ
lfields_per_flush = 50

-- `getarg`, and `setarg`, whose masks keep the bits above and below the field
abbrev pub getarg : (i pos size : ℕ) → ℕ
getarg i pos size = i / 2 ^ pos % 2 ^ size

abbrev pub setarg : (i v pos size : ℕ) → ℕ
setarg i v pos size =
    bit_or (i / 2 ^ (pos + size) * 2 ^ (pos + size) + i % 2 ^ pos) (v % 2 ^ size * 2 ^ pos)

unfoldable pub get_opcode : ℕ → ℕ
get_opcode i = getarg i pos_op size_op

unfoldable pub set_opcode : (i o : ℕ) → ℕ
set_opcode i o = setarg i o pos_op size_op

unfoldable pub getarg_a : ℕ → ℕ
getarg_a i = getarg i pos_a size_a

unfoldable pub setarg_a : (i v : ℕ) → ℕ
setarg_a i v = setarg i v pos_a size_a

unfoldable pub getarg_b : ℕ → ℕ
getarg_b i = getarg i pos_b size_b

unfoldable pub setarg_b : (i v : ℕ) → ℕ
setarg_b i v = setarg i v pos_b size_b

unfoldable pub getarg_c : ℕ → ℕ
getarg_c i = getarg i pos_c size_c

unfoldable pub setarg_c : (i v : ℕ) → ℕ
setarg_c i v = setarg i v pos_c size_c

unfoldable pub getarg_bx : ℕ → ℕ
getarg_bx i = getarg i pos_bx size_bx

unfoldable pub setarg_bx : (i v : ℕ) → ℕ
setarg_bx i v = setarg i v pos_bx size_bx

-- an `int`, as a bit pattern
unfoldable pub getarg_sbx : ℕ → ℕ
unfolding getarg_bx
getarg_sbx i = sub32 (getarg_bx i) maxarg_sbx

unfoldable pub setarg_sbx : (i b : ℕ) → ℕ
unfolding setarg_bx
setarg_sbx i b = setarg_bx i (add32 b maxarg_sbx)

unfoldable pub create_abc : (o a b c : ℕ) → ℕ
create_abc o a b c =
    bit_or
      (bit_or (bit_or (o * 2 ^ pos_op % 2 ^ 32) (a * 2 ^ pos_a % 2 ^ 32)) (b * 2 ^ pos_b % 2 ^ 32))
      (c * 2 ^ pos_c % 2 ^ 32)

unfoldable pub create_abx : (o a bc : ℕ) → ℕ
create_abx o a bc =
    bit_or (bit_or (o * 2 ^ pos_op % 2 ^ 32) (a * 2 ^ pos_a % 2 ^ 32)) (bc * 2 ^ pos_bx % 2 ^ 32)

unfoldable pub getarg_ax : ℕ → ℕ
getarg_ax i = getarg i pos_ax size_ax

unfoldable pub setarg_ax : (i v : ℕ) → ℕ
setarg_ax i v = setarg i v pos_ax size_ax

unfoldable pub create_ax : (o a : ℕ) → ℕ
create_ax o a = bit_or (o * 2 ^ pos_op % 2 ^ 32) (a * 2 ^ pos_ax % 2 ^ 32)

-- `RKASK`
unfoldable pub rkask : ℕ → ℕ
rkask x = bit_or x (2 ^ (size_b - 1))

-- the values of `OpCode` that the translator knows
abbrev pub op_move : ℕ
op_move = 0

abbrev pub op_loadk : ℕ
op_loadk = 1

abbrev pub op_loadnil : ℕ
op_loadnil = 4

abbrev pub op_getupval : ℕ
op_getupval = 5

abbrev pub op_gettabup : ℕ
op_gettabup = 6

abbrev pub op_gettable : ℕ
op_gettable = 7

abbrev pub op_settabup : ℕ
op_settabup = 8

abbrev pub op_setupval : ℕ
op_setupval = 9

abbrev pub op_settable : ℕ
op_settable = 10

abbrev pub op_newtable : ℕ
op_newtable = 11

abbrev pub op_self : ℕ
op_self = 12

abbrev pub op_add : ℕ
op_add = 13

abbrev pub op_sub : ℕ
op_sub = 14

abbrev pub op_mul : ℕ
op_mul = 15

abbrev pub op_div : ℕ
op_div = 16

abbrev pub op_mod : ℕ
op_mod = 17

abbrev pub op_jmp : ℕ
op_jmp = 23

abbrev pub op_eq : ℕ
op_eq = 24

abbrev pub op_lt : ℕ
op_lt = 25

abbrev pub op_le : ℕ
op_le = 26

abbrev pub op_call : ℕ
op_call = 29

abbrev pub op_return : ℕ
op_return = 31

abbrev pub op_forloop : ℕ
op_forloop = 32

abbrev pub op_forprep : ℕ
op_forprep = 33

abbrev pub op_setlist : ℕ
op_setlist = 36

abbrev pub op_closure : ℕ
op_closure = 37

abbrev pub num_opcodes : ℕ
num_opcodes = 40
