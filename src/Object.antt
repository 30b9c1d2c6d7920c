-- ===== src/Object.antt =====
-- include/lobject.h: tagged values. A tag and a value are 32-bit words; a value is a number, a
-- boolean or an address.
use Prim.Native.Nat.{bit_or}
use too_legit_to_jit.Common.{ℕ, ◌%◌, ◌^◌, ◌-◌, Bool, not, ◌&&◌, ◌||◌, ◌==◌}

-- -1 as a word
abbrev pub lua_tnone : ℕ
lua_tnone = 2 ^ 32 - 1

abbrev pub lua_tnil : ℕ
lua_tnil = 3

abbrev pub lua_tboolean : ℕ
lua_tboolean = 1

abbrev pub lua_tlightuserdata : ℕ
lua_tlightuserdata = 2

abbrev pub lua_tnumber : ℕ
lua_tnumber = 0

abbrev pub lua_tstring : ℕ
lua_tstring = 4

abbrev pub lua_ttable : ℕ
lua_ttable = 5

abbrev pub lua_tfunction : ℕ
lua_tfunction = 6

abbrev pub lua_tuserdata : ℕ
lua_tuserdata = 7

abbrev pub lua_tthread : ℕ
lua_tthread = 8

abbrev pub lua_numtags : ℕ
lua_numtags = 9

-- the bits of the variant of a tag
abbrev pub varbits : ℕ
varbits = 48

-- a C closure, short strings and long strings
abbrev pub lua_tccl : ℕ
lua_tccl = 38

abbrev pub lua_tshrstr : ℕ
lua_tshrstr = 4

abbrev pub lua_tlngstr : ℕ
lua_tlngstr = 20

-- variants of the function type: a Lua closure and a light C function
abbrev pub lua_tlcl : ℕ
lua_tlcl = 6

abbrev pub lua_tlcf : ℕ
lua_tlcf = 22

abbrev pub bit_iscollectable : ℕ
bit_iscollectable = 2 ^ 6

-- the mark of a collectable type
unfoldable pub ctb : ℕ → ℕ
ctb t = bit_or t bit_iscollectable

pub record TValue : Type 0 where
  pub t : ℕ
  pub v : ℕ

abbrev pub tvalue : ℕ → ℕ → TValue
tvalue t v = record { t = t; v = v }

unfoldable pub tag : TValue → ℕ
tag o = o.t

-- `tag_gentype`
unfoldable pub tag_gentype : TValue → ℕ
tag_gentype o = o.t % 2 ^ 4

-- `tvisfalse`; the boolean is the lowest byte of the value
unfoldable pub tvisfalse : TValue → Bool
tvisfalse o = o.t == lua_tnil || (o.t == lua_tboolean && o.v % 2 ^ 8 == 0)

-- `tag_spectypevariant`
unfoldable pub tag_spectypevariant : TValue → ℕ
tag_spectypevariant o = o.t % 2 ^ 6

-- the lowest byte of the value, read as a `bool`
unfoldable pub tvtobool : TValue → Bool
tvtobool o = not (o.v % 2 ^ 8 == 0)

unfoldable pub tvtostr : TValue → ℕ
tvtostr o = o.v

unfoldable pub tvtonum : TValue → ℕ
tvtonum o = o.v

unfoldable pub tvtolud : TValue → ℕ
tvtolud o = o.v

unfoldable pub tvtolcf : TValue → ℕ
tvtolcf o = o.v

unfoldable pub tvtogch : TValue → ℕ
tvtogch o = o.v
