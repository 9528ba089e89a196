-- ===== src/Keyboard/Refine.antt =====
-- The keyboard driver against a queue of at most 255 characters.
use orbit_os.Base.{ℕ, ◌<◌, ◌≡◌, arith}
use orbit_os.Base.{
  List, [], ◌∷◌, ◌++◌, length, ◌==◌, if◌then◌else◌, ltb, leb, Bool, true, false, ◌||◌,
}
use orbit_os.Base.{bit_and, Bool-cases, ◌⊎◌, inl, inr}
use orbit_os.Bits.{bit, bit_and-pow}
use orbit_os.Keyboard.{Keyboard, push, callback, translate}
use orbit_os.Keyboard.Ring.{IsValid, contents, contents-push, push-IsValid}

-- What a user of the keyboard sees.
pub record Typed : Type 0 where
  pub queue : List ℕ
  pub shift : Bool

abbrev pub view : Keyboard → Typed
view k = record { queue = contents k; shift = k.shift_pressed }

unfoldable pub enqueue : ℕ → List ℕ → List ℕ
enqueue c queue = if ltb (length queue) 255 then queue ++ c ∷ [] else queue

-- One scancode: a shift key, a release, a key without a character, or a character.
unfoldable pub key : ℕ → Typed → Typed
unfolding enqueue
key scancode t =
    if (scancode == 0x2A) || (scancode == 0x36)
    then record t { shift = true }
    else if (scancode == 0xAA) || (scancode == 0xB6)
    then record t { shift = false }
    else if leb 128 scancode || translate t.shift scancode == 0
    then t
    else record t { queue = enqueue (translate t.shift scancode) t.queue }

-- The top bit of a byte.
top_bit : (x : ℕ) → x < 256 → (bit_and x 0x80 == 0) ≡ ltb x 128
unfolding bit
top_bit x h = ground (arith, bit_and-pow 7 x)

shift-push : (c : ℕ) (k : Keyboard) → (push c k).shift_pressed ≡ k.shift_pressed
unfolding push
shift-push c k = ground arith

view-push :
    (c : ℕ) (k : Keyboard)
    → IsValid k
    → view (push c k) ≡ record { queue = enqueue c (contents k); shift = k.shift_pressed }
unfolding enqueue
view-push c k v = λ i. record { queue = contents-push c k v i; shift = shift-push c k i }

-- The handler keeps the indices inside the buffer, whatever byte it reads.
pub callback-IsValid : (scancode : ℕ) (k : Keyboard) → IsValid k → IsValid (callback scancode k)
unfolding callback
callback-IsValid scancode k v =
    ground (arith, push-IsValid (translate k.shift_pressed scancode) k v)

-- For every byte that the controller sends, the handler does to the driver's view what `key` does.
pub view-callback :
    (scancode : ℕ) (k : Keyboard)
    → scancode < 256
    → IsValid k
    → view (callback scancode k) ≡ key scancode (view k)
unfolding callback key
view-callback scancode k byte v =
    split (Bool-cases ((scancode == 0x2A) || (scancode == 0x36)))
      (Bool-cases ((scancode == 0xAA) || (scancode == 0xB6))) (Bool-cases (ltb scancode 128))
      (Bool-cases (translate k.shift_pressed scancode == 0))
  where
    split :
        (((scancode == 0x2A) || (scancode == 0x36)) ≡ true)
          ⊎ (((scancode == 0x2A) || (scancode == 0x36)) ≡ false)
        → (((scancode == 0xAA) || (scancode == 0xB6)) ≡ true)
          ⊎ (((scancode == 0xAA) || (scancode == 0xB6)) ≡ false)
        → (ltb scancode 128 ≡ true) ⊎ (ltb scancode 128 ≡ false)
        → ((translate k.shift_pressed scancode == 0) ≡ true)
          ⊎ ((translate k.shift_pressed scancode == 0) ≡ false)
        → view (callback scancode k) ≡ key scancode (view k)
    split (inl a) b c d = rw a
    split (inr a) (inl b) c d = rw (a, b)
    split (inr a) (inr b) (inr c) d =
        let released : leb 128 scancode ≡ true = ground arith in
        rw (a, b, top_bit scancode byte, c, released)
    split (inr a) (inr b) (inl c) (inl d) =
        let pressed : leb 128 scancode ≡ false = ground arith in
        rw (a, b, top_bit scancode byte, c, pressed, d)
    split (inr a) (inr b) (inl c) (inr d) =
        let pressed : leb 128 scancode ≡ false = ground arith in
        rw (a, b, top_bit scancode byte, c, pressed, d)
          (view-push (translate k.shift_pressed scancode) k v)
