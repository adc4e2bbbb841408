-- ===== src/Isa/Step.antt =====
-- From bytes in memory to the effect of the instruction: one pass of the loop of `x64emu_run`
-- (x64emu/emu.c), which decodes and executes.
use flux.Base.{length, ◌+◌}
use flux.Machine.{Emu}
use flux.Decode.Format.{Encoding, encode}
use flux.Isa.Meaning.{Performs}

-- The state in which the instruction is executed: RIP is behind it.
abbrev pub behind : Encoding → Emu → Emu
behind e s = record s { rip = s.rip + length (encode e) }
