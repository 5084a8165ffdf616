-- ===== src/Receive/Queues.antt =====
-- Ring buffers that are lists.
use tedium.Common.{
  ℕ, refl, sym, length-append, ◌≡◌, List, [], ◌∷◌, ◌++◌, length, Option, none, some, ltb,
  Bool-cases, inl, inr, arith, if◌then◌else◌,
}
use tedium.Signaling.{InternalFrame}
use tedium.Receive.{RingBuffer}

-- A list with its capacity.
abbrev push_back : List InternalFrame × ℕ → InternalFrame → Option (List InternalFrame × ℕ)
push_back (fs, n) f = if ltb (length fs) n then some (fs ++ (f ∷ []), n) else none

-- It is never filled beyond its capacity, so a queue that holds more counts as one that is full.
abbrev capacity : List InternalFrame × ℕ → ℕ
capacity (fs, n) = if ltb (length fs) n then n else length fs

pub push_back-some :
    (q : List InternalFrame × ℕ) (f : InternalFrame) (q' : List InternalFrame × ℕ)
    → push_back q f ≡ some q'
    → (q'.0 ≡ q.0 ++ (f ∷ [])) × (capacity q' ≡ capacity q)
push_back-some (fs, n) f (fs', n') e = elim (Bool-cases (ltb (length fs) n)) [
  | inl l ↦
      let e' : some (fs ++ (f ∷ []), n) ≡ some (fs', n') = rw l at e in
      let first : fs ++ (f ∷ []) ≡ fs' = cc e' in
      let second : n ≡ n' = cc e' in
      (sym first, rw (sym first, sym second) (ground (arith, l, length-append fs (f ∷ []))))
  | inr l ↦ let e' : none ≡ some (fs', n') = rw l at e in cc e'
]

pub push_back-none :
    (q : List InternalFrame × ℕ) (f : InternalFrame)
    → push_back q f ≡ none
    → length q.0 ≡ capacity q
push_back-none (fs, n) f e = ground arith

abbrev pop_front : List InternalFrame × ℕ → Option (InternalFrame × (List InternalFrame × ℕ))
pop_front ([], n) = none
pop_front (f ∷ fs, n) = some (f, (fs, n))

pub pop_front-some :
    (q : List InternalFrame × ℕ) (f : InternalFrame) (q' : List InternalFrame × ℕ)
    → pop_front q ≡ some (f, q')
    → q.0 ≡ f ∷ q'.0
pop_front-some ([], n) f q' e = cc e
pop_front-some (g ∷ fs, n) f q' e =
    let first : g ≡ f = cc e in let rest : (fs, n) ≡ q' = cc e in rw (sym first, sym rest) refl

pub pop_front-none : (q : List InternalFrame × ℕ) → pop_front q ≡ none → q.0 ≡ []
pop_front-none ([], n) e = refl
pop_front-none (g ∷ fs, n) e = cc e

abbrev pub lists : RingBuffer
lists = record {
  Queue = List InternalFrame × ℕ;
  contents = λ q. q.0;
  capacity = capacity;
  push = push_back;
  push-some = push_back-some;
  push-none = push_back-none;
  pop = pop_front;
  pop-some = pop_front-some;
  pop-none = pop_front-none;
  len = λ q. length q.0;
  len_lem = λ q. refl;
}
