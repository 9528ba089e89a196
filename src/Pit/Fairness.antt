-- ===== src/Pit/Fairness.antt =====
-- Every process gets the processor.
use mathlib.Core.Path.{subst}
use orbit_os.Base.{
  ℕ, zero, suc, ◌+◌, ◌*◌, ◌^◌, ◌≤◌, ◌<◌, ◌≡◌, ◌≢◌, ◌⊎◌, ◌∙◌, refl, arith, sym, ap, inl, inr,
}
use orbit_os.Base.{
  List, [], ◌∷◌, ◌++◌, get_or, length, append_assoc, append-nil, length-append, rotate, All,
}
use native.Mathlib.Decide.{dec_lt}
use orbit_os.Pit.{Timer, pit_callback}
use orbit_os.Pit.Execution.{
  Execution, Stacks, OnStack, IsSettled, current, turns, Execution-IsTurned,
}

-- The process has the processor: it is the current one, and the stack pointer is on its stack.
abbrev pub Runs : Stacks → ℕ → Timer → Type 0
Runs stacks p t = (current t ≡ p) × OnStack stacks p t.cpu.sp

-- The process has had the processor at some point of the execution.
abbrev pub HasRun :
    ℕ
    → {members : List ℕ} {stacks : Stacks} {start : Timer} {n : ℕ} {t : Timer}
    → Execution members stacks start n t
    → Type 0
HasRun p {stacks = stacks} {start = start} Execution.begin = Runs stacks p start
HasRun p (Execution.work e w) = HasRun p e
HasRun p {stacks = stacks} (Execution.interrupt {s = s} e room) =
    HasRun p e ⊎ Runs stacks p (pit_callback s)

-- The processes that the turned queue begins with.
abbrev IsAt : List ℕ → ℕ → ℕ → Type 0
IsAt members j p = (rest : List ℕ) × (p ∷ rest ≡ rotate j members)

IsAt-unique : (members : List ℕ) (j p q : ℕ) → IsAt members j p → IsAt members j q → p ≡ q
IsAt-unique members j p q (rest, e) (rest', e') = ap (λ l. get_or l 0 0) (e ∙ sym e')

-- `k` turns take the first `k` processes to the end.
rotate-append : (xs ys : List ℕ) → rotate (length xs) (xs ++ ys) ≡ ys ++ xs
rotate-append [] ys = sym (append-nil ys)
rotate-append (x ∷ xs) ys =
    rw (append_assoc xs ys (x ∷ [])) (rotate-append xs (ys ++ x ∷ []) ∙ append_assoc ys (x ∷ []) xs)

-- What holds wherever the turned queue begins holds of every process.
All-IsAt :
    (P : ℕ → Type 0) (members before xs : List ℕ)
    → members ≡ before ++ xs
    → ((j p : ℕ) → j < length members → IsAt members j p → P p)
    → All P xs
All-IsAt P members before [] e h = tt
All-IsAt P members before (x ∷ xs) e h = (
  h (length before) x (omega (arith, ap length e, length-append before (x ∷ xs)))
      (xs ++ before, sym (ap (rotate (length before)) e ∙ rotate-append before (x ∷ xs))),
  All-IsAt P members (before ++ x ∷ []) xs (e ∙ sym (append_assoc before (x ∷ []) xs)) h,
)

module _ (members : List ℕ) (stacks : Stacks) (start : Timer) (real : All (λ p. p ≢ 0) members)
    (settled : IsSettled members stacks 0 start.cpu start.processes) where
  HasRun-turn :
      (n j p : ℕ) (t : Timer) (e : Execution members stacks start n t)
      → start.tick + n < 2 ^ 32
      → j ≤ turns start.tick n
      → IsAt members j p
      → HasRun p e
  HasRun-turn zero j p t Execution.begin small le place =
      let none_yet : j ≡ 0 = omega arith in
      let ((rest, e, _), (on, _)) = settled in
      let here : current start ≡ p =
        IsAt-unique members 0 (current start) p (rest, e) (rw none_yet at place) in
      (here, subst (λ q. OnStack stacks q start.cpu.sp) here on)
  HasRun-turn n j p t (Execution.work {s = s} e w) small le place =
      HasRun-turn n j p s e small le place
  HasRun-turn (suc n) j p t (Execution.interrupt {s = s} e room) small le place =
      elim (dec_lt (turns start.tick n) j) [
        | no before ↦ inl (HasRun-turn n j p s e (omega arith) (omega arith) place)
        | yes now ↦
            let (_, (rest, turned_there, _), on) =
              Execution-IsTurned members stacks start (suc n) (pit_callback s) real settled
                (Execution.interrupt e room) small in
            let same : j ≡ turns start.tick (suc n) = omega arith in
            let here : current (pit_callback s) ≡ p =
              IsAt-unique members j (current (pit_callback s)) p (rest, rw same turned_there)
                place in
            inr (here, subst (λ q. OnStack stacks q (pit_callback s).cpu.sp) here on)
      ]

  -- In every execution that starts with a ring of processes, the processor on the stack of the first
  -- and the others parked on theirs, and has an interrupt 50 times for every process but the first,
  -- whatever the processes do between the interrupts, each of the processes has had the processor:
  -- it was the current one and the stack pointer was on its stack. The count of interrupts must not
  -- wrap.
  pub All-HasRun :
      (n : ℕ) (t : Timer) (e : Execution members stacks start n t)
      → start.tick + n < 2 ^ 32
      → 50 * length members ≤ n + 50
      → All (λ p. HasRun p e) members
  All-HasRun n t e small long =
      All-IsAt (λ p. HasRun p e) members [] members refl
        (λ j p lt place. HasRun-turn n j p t e small (omega arith) place)
