-- ===== src/Initrd/Reading.antt =====
-- Reading a file.
use orbit_os.Base.{ℕ, ◌+◌, ◌-◌, ◌≤◌, ◌<◌, ◌≡◌, ◌⊎◌, ◌^◌, min, arith, refl, inl, inr}
use orbit_os.Base.{Bool-cases, leb, u32}
use orbit_os.Memory.{Memory, load8}
use orbit_os.Strings.Blocks.{load8-memcpy_inside, load8-memcpy_outside}
use orbit_os.Fs
use orbit_os.Initrd.{read, read_size}

-- Where `offset + size` does not wrap, the file lies below 2 ^ 32 and the buffer lies outside it,
-- `initrd_read` returns the number of bytes that are left in the file, at most `size`; it copies
-- that many from the offset on, and it changes no byte outside that part of the buffer.
pub read-slice :
    (node offset size buffer : ℕ) (m : Memory)
    → offset + size < 2 ^ 32
    → Fs.impl m node + Fs.file_length m node ≤ 2 ^ 32
    → (buffer + size ≤ Fs.impl m node) ⊎ (Fs.impl m node + Fs.file_length m node ≤ buffer)
    → ((read node offset size buffer m).0 ≡ min size (Fs.file_length m node - offset))
      × ((i : ℕ)
          → i < min size (Fs.file_length m node - offset)
          → load8 (read node offset size buffer m).1 (buffer + i)
            ≡ load8 m (Fs.impl m node + offset + i))
      × ((a : ℕ)
          → (a < buffer) ⊎ (buffer + min size (Fs.file_length m node - offset) ≤ a)
          → load8 (read node offset size buffer m).1 a ≡ load8 m a)
unfolding read
read-slice node offset size buffer m wide fits apart =
    let length = Fs.file_length m node in
    elim (Bool-cases (leb length offset)) [
      | inl e ↦ rw e (ground arith, λ i h. absurd (ground arith), λ a h. refl)
      | inr e ↦
          let n = min size (length - offset) in
          let inside : offset < length = ground arith in
          let count : read_size length offset size ≡ n = unfold read_size in ground arith in
          let start : u32 (Fs.impl m node + offset) ≡ Fs.impl m node + offset = omega arith in
          rw (e, count, start)
            (
              refl,
              λ i h. load8-memcpy_inside m buffer (Fs.impl m node + offset) n i (omega arith) h,
              λ a h. load8-memcpy_outside m buffer (Fs.impl m node + offset) n a h,
            )
    ]
