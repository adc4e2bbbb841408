-- ===== src/Syscall/Laws.antt =====
-- The calls that x64emu/syscall.c handles, and the rest.
use flux.Base.{
  ℕ, ◌-◌, ◌%◌, ◌^◌, ◌<◌, ◌≡◌, refl, ap, ◌∙◌, Bool, true, false, ◌==◌, if◌then◌else◌, arith,
}
use flux.Word.{w32, w64, set_lane}
use flux.Machine.{
  Emu, ok, and_then, exited, ◌>>=◌, pure, exit, set_reg, set_flags, reg, sub_reg, rax, rcx, rdx,
  rsi, rdi, r11, update,
}
use flux.Stack.Laws.{set_lane_full}
use flux.Context.{Os}
use flux.Syscall.{sys_write, sys_exit, x64syscall}

-- What RAX holds after a call that returned `result`, with `errno` set: the result, or `-errno`.
abbrev pub kernel_result : ℕ × ℕ → ℕ
kernel_result (result, errno) =
    if result % 2 ^ 64 == 2 ^ 64 - 1 then (2 ^ 64 - errno) % 2 ^ 64 else result % 2 ^ 64

-- The end of `sys_write`, where RAX holds the result.
errno_lem :
    (errno : ℕ) (b : Bool) (u : Emu)
    → u.regs rax < 2 ^ 64
    → (t : Emu) × (and_then
          ((if b then set_reg w64 0 rax ((2 ^ 64 - errno) % 2 ^ 64) else pure tt) u)
          (λ _. pure true)
        ≡ ok true t)
      × (t.regs rax ≡ (if b then (2 ^ 64 - errno) % 2 ^ 64 else u.regs rax))
      × (t.regs rcx ≡ u.regs rcx)
      × (t.regs r11 ≡ u.regs r11)
      × (t.flags ≡ u.flags)
unfolding set_reg pure
errno_lem errno true u h = (_, refl, set_lane_full _ _ h ∙ omega arith, refl, refl, refl)
errno_lem errno false u h = (_, refl, refl, refl, refl, refl)

abbrev pub written_to : Os → Emu → ℕ × ℕ
written_to os s = os.write (sub_reg w32 0 rdi s) (reg rsi s) (reg rdx s) s.mem

module _ (os : Os) where
  sys_write-lem :
      (u : Emu)
      → u.regs rax < 2 ^ 64
      → (t : Emu) × (sys_write os u ≡ ok true t)
        × (t.regs rax ≡ kernel_result (written_to os u))
        × (t.regs rcx ≡ u.regs rcx)
        × (t.regs r11 ≡ u.regs r11)
        × (t.flags ≡ u.flags)
  unfolding sys_write ◌>>=◌ set_reg
  sys_write-lem u h =
      let (t, run, result, same_rcx, same_r11, same_flags) =
        errno_lem (written_to os u).1 (answered.regs rax == 2 ^ 64 - 1) answered
          (omega (arith, in_rax)) in
      (t, run, result ∙ as_kernel in_rax, same_rcx, same_r11, same_flags)
    where
      answered : Emu
      answered = record u {
        regs = update u.regs rax (set_lane w64 0 (written_to os u).0 (u.regs rax));
      }

      in_rax : answered.regs rax ≡ (written_to os u).0 % 2 ^ 64
      in_rax = set_lane_full (written_to os u).0 (u.regs rax) h

      as_kernel :
          answered.regs rax ≡ (written_to os u).0 % 2 ^ 64
          → (if answered.regs rax == 2 ^ 64 - 1
              then (2 ^ 64 - (written_to os u).1) % 2 ^ 64
              else answered.regs rax)
            ≡ kernel_result (written_to os u)
      as_kernel e =
          ap (λ (x : ℕ). if x == 2 ^ 64 - 1 then (2 ^ 64 - (written_to os u).1) % 2 ^ 64 else x) e

  module _ (s : Emu) where
    -- x64syscall with RAX at 1, in a state whose RCX, R11, RIP and RFLAGS fit 64 bits, returns
    -- true with the result of `write` on EDI, RSI and RDX, or -errno, in RAX, the return address
    -- in RCX, the flags before in R11, and RFLAGS at 0.
    pub x64syscall-write :
        s.regs rax ≡ 1
        → s.regs rcx < 2 ^ 64
        → s.regs r11 < 2 ^ 64
        → s.rip < 2 ^ 64
        → s.flags < 2 ^ 64
        → (t : Emu) × (x64syscall os s ≡ ok true t)
          × (t.regs rax ≡ kernel_result (written_to os s))
          × (t.regs rcx ≡ s.rip)
          × (t.regs r11 ≡ s.flags)
          × (t.flags ≡ 0)
    unfolding x64syscall sys_write ◌>>=◌ set_reg set_flags pure
    x64syscall-write number rcx_fits r11_fits rip_fits flags_fit =
        let (t, run, result, same_rcx, same_r11, same_flags) =
          sys_write-lem entered (omega (arith, number)) in
        (
          t,
          rw number run,
          result,
          same_rcx ∙ set_lane_full s.rip _ rcx_fits ∙ omega arith,
          same_r11 ∙ set_lane_full s.flags _ r11_fits ∙ omega arith,
          same_flags,
        )
      where
        entered : Emu
        entered = record s {
          regs =
              update (update s.regs rcx (set_lane w64 0 s.rip (s.regs rcx))) r11
                (set_lane w64 0 s.flags (s.regs r11));
          flags = 0;
        }

    -- x64syscall with RAX at 0x3C ends the process with the low half of RDI as its status.
    pub x64syscall-exit : s.regs rax ≡ 0x3C → x64syscall os s ≡ exited (sub_reg w32 0 rdi s)
    unfolding x64syscall sys_exit ◌>>=◌ set_reg set_flags pure exit
    x64syscall-exit number = rw number refl
