-- ===== src/EventRing/Window.antt =====
-- A ring holds the newest events: `push_batch` of src/querylog/ring.rs.
use pathdns.Base.{
  ℕ, zero, suc, ◌+◌, ◌-◌, ◌≤◌, ◌<◌, ◌≡◌, ◌∙◌, sym, ap, List, [], ◌∷◌, ◌++◌, true, false, leb, ◌==◌,
  if◌then◌else◌, length, length-append, length-drop, drop, drop-append, Bool-cases, inl, inr, arith,
  refl,
}
use mathlib.Core.List.{append_assoc, append-nil}
use pathdns.EventRing.{Event, EventRing, pop_front, push_loop, is_empty, push_batch}

-- The last `n` items of a list.
abbrev pub newest : ℕ → List Event → List Event
newest n xs = drop (length xs - n) xs

push_one : ℕ → List Event → Event → List Event
push_one capacity buf ev = (if leb capacity (length buf) then pop_front buf else buf) ++ (ev ∷ [])

pop_front-drop : (n : ℕ) (xs : List Event) → pop_front (drop n xs) ≡ drop (suc n) xs
unfolding pop_front
pop_front-drop zero [] = refl
pop_front-drop zero (x ∷ xs) = refl
pop_front-drop (suc n) [] = refl
pop_front-drop (suc n) (x ∷ xs) = pop_front-drop n xs

length-pop_front : (xs : List Event) → length (pop_front xs) ≡ length xs - 1
unfolding pop_front
length-pop_front [] = omega arith
length-pop_front (x ∷ xs) = omega arith

length-push_one :
    (capacity : ℕ) (buf : List Event) (ev : Event)
    → length (push_one capacity buf ev)
      ≡ (if leb capacity (length buf) then length buf - 1 + 1 else length buf + 1)
unfolding push_one
length-push_one capacity buf ev = ground (
  arith,
  length-append (pop_front buf) (ev ∷ []),
  length-append buf (ev ∷ []),
  length-pop_front buf,
)

push_one-newest :
    (capacity : ℕ) (all : List Event) (ev : Event)
    → 0 < capacity
    → push_one capacity (newest capacity all) ev ≡ newest capacity (all ++ (ev ∷ []))
unfolding push_one
push_one-newest capacity all ev h =
    let n : ℕ = length all in
    let held : length (newest capacity all) ≡ n - (n - capacity) = length-drop (n - capacity) all in
    let now : length (all ++ (ev ∷ [])) ≡ n + 1 = length-append all (ev ∷ []) in
    elim (Bool-cases (leb capacity (length (newest capacity all)))) [
      | inl full ↦
          let m : n + 1 - capacity ≡ suc (n - capacity) = ground arith in
          rw (full, now, m, pop_front-drop (n - capacity) all)
            (sym (drop-append (suc (n - capacity)) all (ev ∷ []) (ground arith)))
      | inr room ↦
          let z : n - capacity ≡ 0 = ground arith in
          let m : n + 1 - capacity ≡ 0 = ground arith in rw (room, now, m) (rw z)
    ]

-- When the queue is the window on all events so far, it stays so.
push_loop-newest :
    (capacity : ℕ) (all buf events : List Event) (evicted : ℕ)
    → 0 < capacity
    → buf ≡ newest capacity all
    → (push_loop capacity buf evicted events).0 ≡ newest capacity (all ++ events)
unfolding push_loop push_one
push_loop-newest capacity all buf [] evicted h e = rw append-nil e
push_loop-newest capacity all buf (ev ∷ events) evicted h e =
    push_loop-newest capacity (all ++ (ev ∷ [])) (push_one capacity buf ev) events _ h
      (rw e (push_one-newest capacity all ev h))
    ∙ ap (newest capacity) (append_assoc all (ev ∷ []) events)

push_loop_evicted :
    (capacity : ℕ) (buf events : List Event) (evicted : ℕ)
    → 0 < capacity
    → length buf ≤ capacity
    → (push_loop capacity buf evicted events).1 ≡ evicted + (length buf + length events - capacity)
unfolding push_loop push_one
push_loop_evicted capacity buf [] evicted h l = omega arith
push_loop_evicted capacity buf (ev ∷ events) evicted h l =
    let n = length-push_one capacity buf ev in
    push_loop_evicted capacity (push_one capacity buf ev) events
      (if leb capacity (length buf) then evicted + 1 else evicted) h (ground (arith, n))
    ∙ ground (arith, n)

append_empty : (xs ys : List Event) → is_empty ys ≡ true → xs ++ ys ≡ xs
append_empty xs [] h = append-nil xs
append_empty xs (y ∷ ys) h = cc

length-empty : (ys : List Event) → is_empty ys ≡ true → length ys ≡ 0
length-empty [] h = refl
length-empty (y ∷ ys) h = cc

-- When a ring of positive capacity holds the newest events of a list, `push_batch` makes it hold
-- the newest of that list with the batch appended, keeps the capacity, and counts as dropped the
-- held and pushed events beyond the capacity.
pub push_batch-newest :
    (ring : EventRing) (all events : List Event)
    → 0 < ring.capacity
    → ring.buf ≡ newest ring.capacity all
    → ((push_batch ring events).0.buf ≡ newest ring.capacity (all ++ events))
      × ((push_batch ring events).0.capacity ≡ ring.capacity)
      × ((push_batch ring events).1 ≡ length ring.buf + length events - ring.capacity)
unfolding push_batch
push_batch-newest ring all events h e =
    let z : (ring.capacity == 0) ≡ false = ground arith in
    let bounded : length ring.buf ≤ ring.capacity =
      rw e (omega (arith, length-drop (length all - ring.capacity) all)) in
    elim (Bool-cases (is_empty events)) [
      | inl none_left ↦
          rw (z, none_left)
            (
              e ∙ ap (newest ring.capacity) (sym (append_empty all events none_left)),
              refl,
              omega (arith, length-empty events none_left),
            )
      | inr some_left ↦
          rw (z, some_left)
            (
              push_loop-newest ring.capacity all ring.buf events 0 h e,
              refl,
              omega (arith, push_loop_evicted ring.capacity ring.buf events 0 h bounded),
            )
    ]
