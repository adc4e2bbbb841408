-- ===== src/Syscall.antt =====
-- x64emu/syscall.c
pub mod Laws
use flux.Base.{◌-◌, ◌%◌, ◌^◌, Bool, true, false, ◌==◌, if◌then◌else◌}
use flux.Word.{w32, w64}
use flux.Machine.{
  Emu, M, ◌>>=◌, ◌>>◌, pure, gets, modify, exit, set_reg, set_flags, reg, sub_reg, rax, rcx, rdx,
  rsi, rdi, r11,
}
use flux.Context.{Os, x64emu_free}

module _ (os : Os) where
  unfoldable pub sys_write : M Bool
  sys_write = do
    result ← gets λ s. os.write (sub_reg w32 0 rdi s) (reg rsi s) (reg rdx s) s.mem
    set_reg w64 0 rax result.0
    ret ← gets (reg rax)
    if ret == 2 ^ 64 - 1 then set_reg w64 0 rax ((2 ^ 64 - result.1) % 2 ^ 64) else pure tt
    pure true

  unfoldable pub sys_exit : M Bool
  unfolding x64emu_free modify
  sys_exit = do status ← gets (sub_reg w32 0 rdi); modify λ s. (x64emu_free os s).1; exit status

  unfoldable pub x64syscall : M Bool
  unfolding sys_write sys_exit
  x64syscall = do
    rip ← gets Emu.rip
    set_reg w64 0 rcx rip
    flags ← gets Emu.flags
    set_reg w64 0 r11 flags
    set_flags 0
    number ← gets (reg rax)
    if number == 0x01 then sys_write else if number == 0x3C then sys_exit else pure false
