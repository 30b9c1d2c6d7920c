-- ===== src/Xlogue/Sections.antt =====
-- xlogue.c: the shared code sections for calls, the copying of arguments and results, and the entry
-- from C.
use too_legit_to_jit.Common.{ℕ, [], ◌∷◌, none, some, if◌then◌else◌, true}
use too_legit_to_jit.Word.{neg32}
use too_legit_to_jit.Object.{ctb, lua_tnil, lua_tlcl, lua_tlcf}
use too_legit_to_jit.Operand.{
  Operand, op_target_reg, op_target_daddr, op_target_immed, label_absolute, lbl_next, lbl_prev,
}
use too_legit_to_jit.Emitter.{Emitter32}
use too_legit_to_jit.Machine.{
  Frame, MachineOps, Emit, pure, ◌>>=◌, ◌>>◌, when, get_machine, lift_result,
}
use too_legit_to_jit.Temporaries.{acquire_temp, release_temp}
use too_legit_to_jit.Frame.{vreg_to_operand, vreg_type_offset, get_frame_closure}
use too_legit_to_jit.Synthetic.{mark_local, pushn, popn, address_of, syn_min}
use too_legit_to_jit.Jitfunc.{
  JFunc, JFuncs, jfunc_call, jfunc_unlimited_stack, jf_arg_res_cpy, jf_prologue,
}
use too_legit_to_jit.Mips.Arithmetic.{reg_of}
use too_legit_to_jit.Xlogue.{
  ra_nr_args, ra_base, ra_exist, ra_src, ra_dst, ra_expect, ra_size, rarg,
  prefer_nontemp_acquire_reg, prefer_nontemp_release_reg,
}

-- offsets in `struct closure` and `struct proto`, with 32-bit pointers
abbrev pub closure_p : ℕ
closure_p = 4

abbrev pub proto_code_start : ℕ
proto_code_start = 36

-- a frame with only a number of registers
abbrev pub phoney_frame : (nr_locals : ℕ) → Frame
phoney_frame nr_locals = record {
  nr_locals = nr_locals;
  nr_params = 0;
  nr_consts = 0;
  epi = 0;
  pro = 0;
  consts = [];
}

module _ (mop : MachineOps) where
  unfoldable pub do_copying : (iter limit dst src : Operand) → Emit (Unit {0})
  do_copying iter limit dst src = do
    mark_local 0
    mop.beq iter limit (lbl_next 0)
    mop.move (op_target_daddr (reg_of dst) 0) (op_target_daddr (reg_of src) 0)
    mop.move (op_target_daddr (reg_of dst) (neg32 4)) (op_target_daddr (reg_of src) (neg32 4))
    mop.add dst dst (op_target_immed (neg32 8))
    mop.add src src (op_target_immed (neg32 8))
    mop.add iter iter (op_target_immed 1)
    mop.b (lbl_prev 0)
    mark_local 0

  -- the same body as `do_copying`, as in the source, where nothing calls it
  unfoldable pub do_niling : (iter limit dst src : Operand) → Emit (Unit {0})
  do_niling iter limit dst src = do
    mark_local 0
    mop.beq iter limit (lbl_next 0)
    mop.move (op_target_daddr (reg_of dst) 0) (op_target_daddr (reg_of src) 0)
    mop.move (op_target_daddr (reg_of dst) (neg32 4)) (op_target_daddr (reg_of src) (neg32 4))
    mop.add dst dst (op_target_immed (neg32 8))
    mop.add src src (op_target_immed (neg32 8))
    mop.add iter iter (op_target_immed 1)
    mop.b (lbl_prev 0)
    mark_local 0

  unfoldable pub do_nilling : (iter limit dst : Operand) → Emit (Unit {0})
  do_nilling iter limit dst = do
    mark_local 0
    mop.beq iter limit (lbl_next 0)
    mop.move (op_target_daddr (reg_of dst) (neg32 4)) (op_target_immed lua_tnil)
    mop.add dst dst (op_target_immed (neg32 8))
    mop.add iter iter (op_target_immed 1)
    mop.b (lbl_prev 0)
    mark_local 0

  -- The source writes to `rargs[ RA_SIZE ]`, which is behind the end of the array.
  unfoldable pub jinit_cpy_arg_res : JFunc → Emit JFunc
  jinit_cpy_arg_res jf = do
    rargs ← prefer_nontemp_acquire_reg mop ra_size
    exist ← rarg rargs ra_exist
    src ← rarg rargs ra_src
    dst ← rarg rargs ra_dst
    expect ← rarg rargs ra_expect
    syn_min mop exist exist expect
    t ← acquire_temp mop.move
    let iter = op_target_reg t
    mop.move iter (op_target_immed 0)
    do_copying iter exist dst src
    behind ← rarg rargs ra_size
    mop.move behind exist
    do_nilling iter exist dst
    _ ← release_temp mop.move
    prefer_nontemp_release_reg mop ra_size
    mop.ret
    pure jf

  -- `close` is the address of `closure_close`.
  unfoldable pub jinit_epi : (close : ℕ) → JFunc → Emit JFunc
  jinit_epi close jf = do
    m ← get_machine
    let sp = op_target_reg m.sp
    let fp = op_target_reg m.fp
    mop.call_static_cfn (phoney_frame 0) close none (get_frame_closure m ∷ [])
    rargs ← prefer_nontemp_acquire_reg mop ra_size
    dst ← rarg rargs ra_dst
    mop.add sp fp (op_target_immed (neg32 4))
    if m.is_ra then popn mop (dst ∷ fp ∷ op_target_reg m.ra ∷ []) else popn mop (dst ∷ fp ∷ [])
    mop.ret
    prefer_nontemp_release_reg mop ra_size
    pure jf

  unfoldable pub lcl_pro : Emit (Unit {0})
  lcl_pro = do
    m ← get_machine
    let sp = op_target_reg m.sp
    let fp = op_target_reg m.fp
    basestack ← lift_result (vreg_to_operand m 0 true)
    rargs ← prefer_nontemp_acquire_reg mop ra_size
    src ← rarg rargs ra_src
    dst ← rarg rargs ra_dst
    expect ← rarg rargs ra_expect
    if m.is_ra then pushn mop (op_target_reg m.ra ∷ fp ∷ src ∷ []) else pushn mop (fp ∷ src ∷ [])
    mop.add fp sp (op_target_immed 4)
    mop.move expect (op_target_daddr (reg_of src) 0)
    mop.move expect (op_target_daddr (reg_of expect) closure_p)
    mop.move expect (op_target_daddr (reg_of expect) proto_code_start)
    mop.add src src (op_target_immed (neg32 8))
    address_of mop dst basestack.value
    mop.b (label_absolute expect)
    prefer_nontemp_release_reg mop ra_size

  -- `invokec` is the address of `ljc_invokec`.
  unfoldable pub lcf_pro : (invokec : ℕ) → Emit (Unit {0})
  lcf_pro invokec = do
    m ← get_machine
    let sp = op_target_reg m.sp
    let ra = op_target_reg m.ra
    rargs ← prefer_nontemp_acquire_reg mop ra_size
    prefer_nontemp_release_reg mop ra_size
    nr_args ← rarg rargs ra_nr_args
    base ← rarg rargs ra_base
    dst ← rarg rargs ra_dst
    expect ← rarg rargs ra_expect
    if m.is_ra then pushn mop (ra ∷ base ∷ []) else pushn mop (base ∷ [])
    mop.add sp sp (op_target_immed (neg32 4))
    mop.move expect sp
    mop.call_static_cfn (phoney_frame 0) invokec (some base) (base ∷ nr_args ∷ expect ∷ [])
    mop.move nr_args (op_target_daddr m.sp 0)
    mop.add sp sp (op_target_immed 4)
    if m.is_ra then popn mop (dst ∷ ra ∷ []) else popn mop (dst ∷ [])
    mop.ret

  unfoldable pub jinit_pro : (invokec : ℕ) → JFunc → Emit JFunc
  jinit_pro invokec jf = do
    rargs ← prefer_nontemp_acquire_reg mop ra_size
    base ← rarg rargs ra_base
    expect ← rarg rargs ra_expect
    mop.move expect (op_target_daddr (reg_of base) (vreg_type_offset 0))
    mop.beq expect (op_target_immed (ctb lua_tlcl)) (lbl_next 0)
    mop.beq expect (op_target_immed lua_tlcf) (lbl_next 1)
    prefer_nontemp_release_reg mop ra_size
    mark_local 0
    lcl_pro
    mark_local 1
    lcf_pro invokec
    pure jf

  -- `buffer` is the address of an emitter's buffer, and `t` has the sections before this one.
  unfoldable pub jinit_vresult_postcall : (buffer : Emitter32 → ℕ) → JFuncs → JFunc → Emit JFunc
  jinit_vresult_postcall buffer t jf = do
    m ← get_machine
    rargs ← prefer_nontemp_acquire_reg mop ra_size
    exist ← rarg rargs ra_exist
    dst ← rarg rargs ra_dst
    expect ← rarg rargs ra_expect
    mop.move expect exist
    when m.is_ra (pushn mop (op_target_reg m.ra ∷ []))
    jfunc_call mop.call buffer t jf_arg_res_cpy 0 3
    when m.is_ra (popn mop (op_target_reg m.ra ∷ []))
    mop.add (op_target_reg m.sp) dst (op_target_immed 0)
    prefer_nontemp_release_reg mop ra_size
    mop.ret
    pure jf

  unfoldable pub jinit_bootstrap : (buffer : Emitter32 → ℕ) → JFuncs → JFunc → Emit JFunc
  jinit_bootstrap buffer t jf = do
    m ← get_machine
    rargs ← prefer_nontemp_acquire_reg mop ra_size
    exist ← rarg rargs ra_exist
    src ← rarg rargs ra_src
    dst ← rarg rargs ra_dst
    when m.is_ra (pushn mop (op_target_reg m.ra ∷ []))
    mop.move exist (mop.carg m 0)
    mop.move src (mop.carg m 1)
    jfunc_call mop.call buffer t jf_prologue 0 jfunc_unlimited_stack
    mop.move (op_target_daddr (reg_of dst) 0) src
    mop.move mop.cret exist
    prefer_nontemp_release_reg mop ra_size
    when m.is_ra (popn mop (op_target_reg m.ra ∷ []))
    mop.ret
    pure jf
