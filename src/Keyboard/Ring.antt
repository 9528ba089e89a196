-- ===== src/Keyboard/Ring.antt =====
-- The ring as a queue.
use native.Mathlib.Decide.{ℕ_discrete}
use orbit_os.Base.{
  true, false, ℕ, zero, suc, ◌+◌, ◌-◌, ◌%◌, ◌<◌, ◌≡◌, ◌≢◌, refl, arith, ap, ap₂, ◌∙◌,
}
use orbit_os.Base.{List, [], ◌∷◌, ◌++◌, length, ◌==◌, if◌then◌else◌, ltb}
use orbit_os.Keyboard.{Keyboard, buffer_size, update, push}

-- Both indices stay inside the buffer.
pub record IsValid (k : Keyboard) : Type 0 where
  pub head_in : k.head < buffer_size
  pub tail_in : k.tail < buffer_size

-- The `n` characters from index `t` on, going round at the end of the buffer.
abbrev pub window : (ℕ → ℕ) → ℕ → ℕ → List ℕ
window buf t zero = []
window buf t (suc n) = buf t ∷ window buf ((t + 1) % buffer_size) n

-- How many characters wait.
abbrev pub waiting : Keyboard → ℕ
waiting k = (k.head + buffer_size - k.tail) % buffer_size

abbrev pub contents : Keyboard → List ℕ
contents k = window k.buffer k.tail (waiting k)

pub length-window : (buf : ℕ → ℕ) (t n : ℕ) → length (window buf t n) ≡ n
length-window buf t zero = refl
length-window buf t (suc n) = ap suc (length-window buf ((t + 1) % buffer_size) n)

-- A write behind a window that leaves a cell free extends it.
window-update :
    (buf : ℕ → ℕ) (x n t i : ℕ)
    → n < 255
    → t < buffer_size
    → i ≡ (t + n) % buffer_size
    → window (update buf i x) t (suc n) ≡ window buf t n ++ x ∷ []
window-update buf x zero t i small inside e = ground arith
window-update buf x (suc n) t i small inside e =
    ap₂ ◌∷◌ (ground arith)
      (window-update buf x n ((t + 1) % buffer_size) i (omega arith) (omega arith) (omega arith))

module _ (c : ℕ) (k : Keyboard) (v : IsValid k) where
  abbrev next_head : ℕ
  next_head = (k.head + 1) % buffer_size

  push_full : next_head ≡ k.tail → (push c k ≡ k) × (waiting k ≡ 255)
  unfolding push
  push_full e = let full : (next_head == k.tail) ≡ true = ground arith in (rw full, omega arith)

  push_room :
      next_head ≢ k.tail
      → (push c k ≡ record k { buffer = update k.buffer k.head c; head = next_head })
        × (waiting k < 255)
        × ((next_head + buffer_size - k.tail) % buffer_size ≡ waiting k + 1)
  unfolding push
  push_room ne =
      let room : (next_head == k.tail) ≡ false = ground arith in (rw room, omega arith, omega arith)

  -- `push` appends, unless 255 characters wait.
  pub contents-push :
      contents (push c k)
      ≡ (if ltb (length (contents k)) 255 then contents k ++ c ∷ [] else contents k)
  contents-push =
      rw (length-window k.buffer k.tail (waiting k)) (elim (ℕ_discrete next_head k.tail) [
        | yes e ↦
            let full : ltb (waiting k) 255 ≡ false = ground (arith, (push_full e).1) in
            rw (full, (push_full e).0)
        | no ne ↦
            let room : ltb (waiting k) 255 ≡ true = ground (arith, (push_room ne).1) in
            rw (room, (push_room ne).0, (push_room ne).2)
              (let next : waiting k + 1 ≡ suc (waiting k) = omega arith in
                ap (window (update k.buffer k.head c) k.tail) next
                ∙ window-update k.buffer c (waiting k) k.tail k.head (push_room ne).1 v.tail_in
                    (omega (arith, v.head_in, v.tail_in)))
      ])

  pub push-IsValid : IsValid (push c k)
  unfolding push
  push-IsValid = ground arith

  pub tail-push : (push c k).tail ≡ k.tail
  unfolding push
  tail-push = ground arith

  -- The oldest character is not overwritten.
  pub push_keeps_oldest : k.head ≢ k.tail → (push c k).buffer k.tail ≡ k.buffer k.tail
  unfolding push
  push_keeps_oldest ne = ground arith

  pub push_not_empty : k.head ≢ k.tail → (push c k).head ≢ (push c k).tail
  unfolding push
  push_not_empty ne = ground arith
