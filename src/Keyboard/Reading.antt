-- ===== src/Keyboard/Reading.antt =====
-- `keyboard_getchar`, with interrupts while it waits and inside it.
use native.Mathlib.Decide.{ℕ_discrete}
use orbit_os.Base.{
  ℕ, zero, suc, ◌+◌, ◌-◌, ◌%◌, ◌<◌, ◌≡◌, ◌≢◌, refl, arith, ap, ap₂, ◌∙◌, sym, ◌>>=◌,
}
use orbit_os.Base.{All, List, [], ◌∷◌, Bool, true, false, drop}
use orbit_os.Base.{Option, none, some}
use orbit_os.Keyboard.{Keyboard, buffer_size, callback, callbacks, translate, haskey, wait, getchar}
use orbit_os.Keyboard.Ring.{IsValid, window, waiting, contents, tail-push, push_not_empty}
use orbit_os.Keyboard.Refine.{Typed, view, key, callback-IsValid, view-callback}

abbrev pub AreBytes : List ℕ → Type 0
AreBytes [] = Unit
AreBytes (b ∷ bs) = (b < 256) × AreBytes bs

-- Scancodes one after the other.
unfoldable pub keys : List ℕ → Typed → Typed
keys [] t = t
keys (scancode ∷ later) t = keys later (key scancode t)

-- Round by round, until the queue holds a character at a test.
unfoldable pub ready : List (List ℕ) → Typed → Option (Typed × List (List ℕ))
unfolding keys
ready [] t = elim t.queue [ [] ↦ none | c ∷ q ↦ some (t, []) ]
ready (round ∷ later) t = elim t.queue [
  | [] ↦ ready later (keys round t)
  | c ∷ q ↦ some (t, round ∷ later)
]

-- The first character of a queue that is not empty leaves it, after the scancodes of `during`.
unfoldable pub dequeue : List ℕ → Typed → List (List ℕ) → Option (ℕ × Typed × List (List ℕ))
dequeue during now later =
    let t = keys during now in
    elim now.queue [ [] ↦ none | c ∷ q ↦ some (c, record t { queue = drop 1 t.queue }, later) ]

unfoldable pub read : List (List ℕ) → List ℕ → Typed → Option (ℕ × Typed × List (List ℕ))
read pending during t = do (now, later) ← ready pending t; dequeue during now later

callbacks-IsValid : (during : List ℕ) (k : Keyboard) → IsValid k → IsValid (callbacks during k)
unfolding callbacks
callbacks-IsValid [] k v = v
callbacks-IsValid (b ∷ bs) k v = callbacks-IsValid bs (callback b k) (callback-IsValid b k v)

view-callbacks :
    (during : List ℕ) (k : Keyboard)
    → AreBytes during
    → IsValid k
    → view (callbacks during k) ≡ keys during (view k)
unfolding callbacks keys
view-callbacks [] k bytes v = refl
view-callbacks (b ∷ bs) k bytes v =
    view-callbacks bs (callback b k) bytes.1 (callback-IsValid b k v)
    ∙ ap (keys bs) (view-callback b k bytes.0 v)

-- What an interrupt leaves alone while a character waits.
record IsKept (k k' : Keyboard) : Type 0 where
  same_tail : k'.tail ≡ k.tail
  not_empty : k'.head ≢ k'.tail

callback-IsKept : (b : ℕ) (k : Keyboard) → IsValid k → k.head ≢ k.tail → IsKept k (callback b k)
unfolding callback
callback-IsKept b k v ne = record {
  same_tail = ground (arith, tail-push c k v);
  not_empty = ground (arith, push_not_empty c k v ne);
}
  where
    c : ℕ
    c = translate k.shift_pressed b

callbacks-IsKept :
    (during : List ℕ) (k : Keyboard) → IsValid k → k.head ≢ k.tail → IsKept k (callbacks during k)
unfolding callbacks
callbacks-IsKept [] k v ne = record { same_tail = refl; not_empty = ne }
callbacks-IsKept (b ∷ bs) k v ne =
    let first = callback-IsKept b k v ne in
    let rest = callbacks-IsKept bs (callback b k) (callback-IsValid b k v) first.not_empty in
    record { same_tail = rest.same_tail ∙ first.same_tail; not_empty = rest.not_empty }

window-suc :
    (buf : ℕ → ℕ) (t n : ℕ)
    → n ≢ 0
    → window buf t n ≡ buf t ∷ window buf ((t + 1) % buffer_size) (n - 1)
window-suc buf t zero ne = absurd (ne refl)
window-suc buf t (suc n) ne =
    let e : n ≡ suc n - 1 = omega arith in ap (λ l. buf t ∷ window buf ((t + 1) % buffer_size) l) e

module _ (k : Keyboard) (v : IsValid k) where
  contents_of_empty : k.head ≡ k.tail → contents k ≡ []
  contents_of_empty e = let none_waits : waiting k ≡ 0 = omega arith in rw none_waits

  contents_of_waiting :
      k.head ≢ k.tail
      → contents k ≡ k.buffer k.tail ∷ window k.buffer ((k.tail + 1) % buffer_size) (waiting k - 1)
  contents_of_waiting ne = window-suc k.buffer k.tail (waiting k) (omega arith)

  -- Moving the tail on drops the oldest character.
  contents_advance :
      k.head ≢ k.tail
      → contents (record k { tail = (k.tail + 1) % buffer_size }) ≡ drop 1 (contents k)
  contents_advance ne =
      let fewer : (k.head + buffer_size - (k.tail + 1) % buffer_size) % buffer_size
          ≡ waiting k - 1 =
        omega arith in
      ap (window k.buffer ((k.tail + 1) % buffer_size)) fewer
      ∙ ap (drop 1) (sym (contents_of_waiting ne))

-- Where the wait ends: at a valid state in which a character waits.
abbrev EndsAt : Option (Keyboard × List (List ℕ)) → Option (Typed × List (List ℕ)) → Type 0
EndsAt none none = Unit
EndsAt none (some s) = ⊥
EndsAt (some r) none = ⊥
EndsAt (some (k, later)) (some (t, later')) =
    (view k ≡ t) × (later ≡ later') × IsValid k × (k.head ≢ k.tail)

haskey_waiting : (k : Keyboard) → k.head ≢ k.tail → haskey k ≡ true
unfolding haskey
haskey_waiting k ne = ground arith

haskey_empty : (k : Keyboard) → k.head ≡ k.tail → haskey k ≡ false
unfolding haskey
haskey_empty k e = ground arith

ready-nil :
    (b : List ℕ) (bs : List (List ℕ)) (queue : List ℕ) (shift : Bool)
    → queue ≡ []
    → ready (b ∷ bs) (record { queue = queue; shift = shift })
      ≡ ready bs (keys b (record { queue = queue; shift = shift }))
unfolding ready
ready-nil b bs [] shift e = refl
ready-nil b bs (c ∷ q) shift e = absurd (cc e)

wait-ready :
    (pending : List (List ℕ)) (k : Keyboard)
    → All AreBytes pending
    → IsValid k
    → EndsAt (wait pending k) (ready pending (view k))
unfolding wait
wait-ready [] k bytes v = elim (ℕ_discrete k.head k.tail) [
  | yes e ↦ unfold ready in rw (haskey_empty k e, contents_of_empty k v e) tt
  | no ne ↦
      unfold ready in
      rw (haskey_waiting k ne, contents_of_waiting k v ne)
        (λ i. record { queue = contents_of_waiting k v ne i; shift = k.shift_pressed }, refl, v, ne)
]
wait-ready (b ∷ bs) k bytes v = elim (ℕ_discrete k.head k.tail) [
  | yes e ↦
      let ih = wait-ready bs (callbacks b k) bytes.1 (callbacks-IsValid b k v) in
      rw
        (
          haskey_empty k e,
          ready-nil b bs (contents k) k.shift_pressed (contents_of_empty k v e),
          ← view-callbacks b k bytes.0 v,
        )
        ih
  | no ne ↦
      unfold ready in
      rw (haskey_waiting k ne, contents_of_waiting k v ne)
        (λ i. record { queue = contents_of_waiting k v ne i; shift = k.shift_pressed }, refl, v, ne)
]

view_advance :
    (k : Keyboard) {t : Typed}
    → IsValid k
    → k.head ≢ k.tail
    → view k ≡ t
    → view (record k { tail = (k.tail + 1) % buffer_size }) ≡ record t { queue = drop 1 t.queue }
view_advance k v ne e =
    (λ i. record { queue = contents_advance k v ne i; shift = k.shift_pressed })
    ∙ ap (λ (t : Typed). record t { queue = drop 1 t.queue }) e

pick :
    {b : Typed × List (List ℕ)} {c : ℕ} {q : List ℕ} (queue : List ℕ)
    → queue ≡ c ∷ q
    → ◌≡◌ {A = Option (ℕ × Typed × List (List ℕ))}
        (elim queue [ [] ↦ none | d ∷ r ↦ some (d, b.0, b.1) ])
        (some (c, b.0, b.1))
pick [] e = absurd (cc e)
pick (d ∷ r) e = cc e

dequeue-waiting :
    (during : List ℕ) (later : List (List ℕ)) (k : Keyboard)
    → IsValid k
    → k.head ≢ k.tail
    → let t = keys during (view k) in
      dequeue during (view k) later
      ≡ some (k.buffer k.tail, record t { queue = drop 1 t.queue }, later)
unfolding dequeue
dequeue-waiting during later k v ne =
    let t = keys during (view k) in
    pick {b = (record t { queue = drop 1 t.queue }, later)} (contents k)
      (contents_of_waiting k v ne)

-- What a caller of `keyboard_getchar` sees of its result.
abbrev pub seen : Option (ℕ × Keyboard × List (List ℕ)) → Option (ℕ × Typed × List (List ℕ))
seen none = none
seen (some (c, k, later)) = some (c, view k, later)

-- `keyboard_getchar` is `read`, for any scan codes that arrive in each round of its wait, before or at
-- the end of the `hlt`, and any that arrive between its read of the character and its write of the
-- tail: it returns the oldest character at the first test that finds one, halts again exactly where a
-- test finds none, and loses nothing that those scan codes put into the queue. Where no test of the
-- rounds finds a character there is no result.
pub getchar-read :
    (pending : List (List ℕ)) (during : List ℕ) (k : Keyboard)
    → All AreBytes pending
    → AreBytes during
    → IsValid k
    → seen (getchar pending during k) ≡ read pending during (view k)
unfolding getchar read
getchar-read pending during k bytes bytes' v =
    finish (wait pending k) (ready pending (view k)) (wait-ready pending k bytes v)
  where
    finish :
        (r : Option (Keyboard × List (List ℕ))) (s : Option (Typed × List (List ℕ)))
        → EndsAt r s
        → seen (do
          (now, later) ← r
          let k' = callbacks during now
          some (now.buffer now.tail, record k' { tail = (k'.tail + 1) % buffer_size }, later))
          ≡ (do (now, later) ← s; dequeue during now later)
    finish none none h = refl
    finish none (some s) h = absurd h
    finish (some r) none h = absurd h
    finish (some (now, later)) (some (t, later')) (same, e, v', ne) =
        let after = callbacks during now in
        let v'' = callbacks-IsValid during now v' in
        let kept = callbacks-IsKept during now v' ne in
        ap (λ u. some (now.buffer now.tail, u, later))
          (view_advance after v'' kept.not_empty (view-callbacks during now bytes' v'))
        ∙ sym (dequeue-waiting during later now v' ne)
        ∙ ap₂ (dequeue during) same e
