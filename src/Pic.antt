-- ===== src/Pic.antt =====
-- drivers/pic.c: the two interrupt controllers. The bytes sent are a log, the latest first; the
-- mask bytes that `inb` reads are arguments.
use orbit_os.Base.{ℕ, ◌+◌, List, ◌∷◌, ltb, if◌then◌else◌, u8}

abbrev pub Log : Type 0
Log = List (ℕ × ℕ)

abbrev pub outb : ℕ → ℕ → Log → Log
outb port val log = (port, u8 val) ∷ log

abbrev pub io_wait : Log → Log
io_wait log = outb 0x80 0 log

abbrev pub pic1 : ℕ
pic1 = 0x20

abbrev pub pic2 : ℕ
pic2 = 0xA0

unfoldable pub send_eoi : ℕ → Log → Log
send_eoi irq log = outb pic1 0x20 (if ltb irq 8 then log else outb pic2 0x20 log)

unfoldable pub remap : ℕ → ℕ → ℕ → ℕ → Log → Log
remap offset1 offset2 a1 a2 log =
    let started = io_wait (outb pic2 0x11 (io_wait (outb pic1 0x11 log))) in
    let moved = io_wait (outb (pic2 + 1) offset2 (io_wait (outb (pic1 + 1) offset1 started))) in
    let joined = io_wait (outb (pic2 + 1) 2 (io_wait (outb (pic1 + 1) 4 moved))) in
    let in_mode = io_wait (outb (pic2 + 1) 1 (io_wait (outb (pic1 + 1) 1 joined))) in
    outb (pic2 + 1) a2 (outb (pic1 + 1) a1 in_mode)
