-- ===== src/Keyboard.antt =====
-- drivers/keyboard.c: the interrupt handler puts translated scancodes into a ring of 256
-- characters, and `keyboard_getchar` takes them out. The byte that `inb` reads from the controller
-- is an argument of the handler.
pub mod Ring
pub mod Refine
pub mod Reading
use orbit_os.Isr.{Handlers, register_interrupt_handler}
use orbit_os.Base.{ℕ, zero, suc, ◌+◌, ◌%◌, Bool, true, false, ◌&&◌, ◌||◌, not, Option, none, some}
use orbit_os.Base.{List, [], ◌∷◌, ◌++◌, replicate, get_or, ◌==◌, ltb, if◌then◌else◌, bit_and, ◌>>=◌}

pub record Keyboard : Type 0 where
  pub buffer : ℕ → ℕ
  pub head : ℕ
  pub tail : ℕ
  pub shift_pressed : Bool

abbrev pub buffer_size : ℕ
buffer_size = 256

-- The static variables before the first interrupt.
abbrev pub idle : Keyboard
idle = record { buffer = λ i. 0; head = 0; tail = 0; shift_pressed = false }

abbrev lower_row_1 : List ℕ
lower_row_1 =
    0 ∷ 27 ∷ b'1' ∷ b'2' ∷ b'3' ∷ b'4' ∷ b'5' ∷ b'6' ∷ b'7' ∷ b'8' ∷ b'9' ∷ b'0' ∷ b'-' ∷ b'=' ∷ 8
    ∷ []

abbrev lower_row_2 : List ℕ
lower_row_2 =
    9 ∷ b'q' ∷ b'w' ∷ b'e' ∷ b'r' ∷ b't' ∷ b'y' ∷ b'u' ∷ b'i' ∷ b'o' ∷ b'p' ∷ b'[' ∷ b']' ∷ 10 ∷ 0
    ∷ []

abbrev lower_row_3 : List ℕ
lower_row_3 =
    b'a' ∷ b's' ∷ b'd' ∷ b'f' ∷ b'g' ∷ b'h' ∷ b'j' ∷ b'k' ∷ b'l' ∷ b';' ∷ 39 ∷ b'`' ∷ 0 ∷ []

abbrev lower_row_4 : List ℕ
lower_row_4 =
    92 ∷ b'z' ∷ b'x' ∷ b'c' ∷ b'v' ∷ b'b' ∷ b'n' ∷ b'm' ∷ b',' ∷ b'.' ∷ b'/' ∷ 0 ∷ b'*' ∷ 0 ∷ b' '
    ∷ 0 ∷ []

-- `scancode_ascii_lower`; the entries behind those written are zeros.
unfoldable pub scancode_ascii_lower : List ℕ
scancode_ascii_lower = lower_row_1 ++ (lower_row_2 ++ (lower_row_3 ++ lower_row_4))

abbrev upper_row_1 : List ℕ
upper_row_1 =
    0 ∷ 27 ∷ b'!' ∷ b'@' ∷ b'#' ∷ b'$' ∷ b'%' ∷ b'^' ∷ b'&' ∷ b'*' ∷ b'(' ∷ b')' ∷ b'_' ∷ b'+' ∷ 8
    ∷ []

abbrev upper_row_2 : List ℕ
upper_row_2 =
    9 ∷ b'Q' ∷ b'W' ∷ b'E' ∷ b'R' ∷ b'T' ∷ b'Y' ∷ b'U' ∷ b'I' ∷ b'O' ∷ b'P' ∷ b'{' ∷ b'}' ∷ 10 ∷ 0
    ∷ []

abbrev upper_row_3 : List ℕ
upper_row_3 =
    b'A' ∷ b'S' ∷ b'D' ∷ b'F' ∷ b'G' ∷ b'H' ∷ b'J' ∷ b'K' ∷ b'L' ∷ b':' ∷ b'"' ∷ b'~' ∷ 0 ∷ []

abbrev upper_row_4 : List ℕ
upper_row_4 =
    b'|' ∷ b'Z' ∷ b'X' ∷ b'C' ∷ b'V' ∷ b'B' ∷ b'N' ∷ b'M' ∷ b'<' ∷ b'>' ∷ b'?' ∷ 0 ∷ b'*' ∷ 0 ∷ b' '
    ∷ 0 ∷ []

unfoldable pub scancode_ascii_upper : List ℕ
scancode_ascii_upper = upper_row_1 ++ (upper_row_2 ++ (upper_row_3 ++ upper_row_4))

-- The character of a make code, 0 where it has none.
unfoldable pub translate : Bool → ℕ → ℕ
translate shift scancode =
    if ltb scancode 128
    then (if shift
        then get_or scancode_ascii_upper scancode 0
        else get_or scancode_ascii_lower scancode 0)
    else 0

abbrev pub update : (ℕ → ℕ) → ℕ → ℕ → ℕ → ℕ
update f i v j = if i == j then v else f j

-- "Push to ring buffer": a full ring drops the character.
unfoldable pub push : ℕ → Keyboard → Keyboard
push c k =
    let next_head = (k.head + 1) % buffer_size in
    if next_head == k.tail
    then k
    else record k { buffer = update k.buffer k.head c; head = next_head }

unfoldable pub callback : ℕ → Keyboard → Keyboard
callback scancode k =
    if (scancode == 0x2A) || (scancode == 0x36)
    then record k { shift_pressed = true }
    else if (scancode == 0xAA) || (scancode == 0xB6)
    then record k { shift_pressed = false }
    else if not (bit_and scancode 0x80 == 0)
    then k
    else let c = translate k.shift_pressed scancode in if c == 0 then k else push c k

-- Interrupts one after the other.
unfoldable pub callbacks : List ℕ → Keyboard → Keyboard
callbacks [] k = k
callbacks (scancode ∷ later) k = callbacks later (callback scancode k)

unfoldable pub haskey : Keyboard → Bool
haskey k = not (k.head == k.tail)

-- `while (!keyboard_haskey()) hlt`, by rounds. The scan codes of a round arrive between a test and
-- the end of the `hlt` behind it: some before the `hlt`, which they do not end, and one that ends it;
-- or none that ends it, since the interrupt of any other device does. Behind the last round no
-- interrupt ends the `hlt`: `none` is the halted processor, and a scan code that arrives between that
-- test and that `hlt` stays in the buffer without waking the caller.
unfoldable pub wait : List (List ℕ) → Keyboard → Option (Keyboard × List (List ℕ))
unfolding callbacks
wait [] k = if haskey k then some (k, []) else none
wait (round ∷ later) k =
    let rest = wait later (callbacks round k) in if haskey k then some (k, round ∷ later) else rest

-- `keyboard_getchar`. The rounds of `pending` pass while it waits, the scan codes of `during` arrive
-- between its read of the character and its write of `buffer_tail`. It returns the character and the
-- rounds that were not needed.
unfoldable pub getchar : List (List ℕ) → List ℕ → Keyboard → Option (ℕ × Keyboard × List (List ℕ))
getchar pending during k = do
  (ready, later) ← wait pending k
  let k' = callbacks during ready
  some (ready.buffer ready.tail, record k' { tail = (k'.tail + 1) % buffer_size }, later)

-- `keyboard_initialize`, on a handler on the state `S` of the kernel.
unfoldable pub initialize : {S : Type 0} → (S → S) → Handlers S → Handlers S
initialize handler handlers = register_interrupt_handler 33 handler handlers
