-- ===== src/EventRing.antt =====
-- `EventRing` of src/querylog/ring.rs: the bounded queue of recent events, behind its mutex. An
-- event is its sequence number and its name; the broadcast to subscribers is left out.
pub mod Window
use pathdns.Base.{
  ℕ, zero, suc, ◌+◌, ◌-◌, min, max, List, [], ◌∷◌, ◌++◌, Bool, true, false, not, ◌&&◌, ◌||◌, Option,
  none, some, ltb, leb, ◌==◌, if◌then◌else◌, length, take,
}
use mathlib.Core.List.{reverse}

-- The part of `QueryLogEvent` that the ring reads.
pub record Event : Type 0 where
  pub seq : ℕ
  pub qname : List ℕ

-- `VecDeque` from front to back.
pub record EventRing : Type 0 where
  pub buf : List Event
  pub capacity : ℕ

unfoldable pub pop_front : List Event → List Event
pop_front [] = []
pop_front (x ∷ xs) = xs

-- The loop of `push_batch`, with the count of evicted events.
unfoldable pub push_loop : ℕ → List Event → ℕ → List Event → List Event × ℕ
unfolding pop_front
push_loop capacity buf evicted [] = (buf, evicted)
push_loop capacity buf evicted (ev ∷ events) =
    let full = leb capacity (length buf) in
    push_loop capacity ((if full then pop_front buf else buf) ++ (ev ∷ []))
      (if full then evicted + 1 else evicted) events

abbrev pub is_empty {ℓ} : {A : Type ℓ} → List A → Bool
is_empty [] = true
is_empty (x ∷ xs) = false

unfoldable pub push_batch : EventRing → List Event → EventRing × ℕ
unfolding push_loop
push_batch ring events =
    if ring.capacity == 0 || is_empty events
    then (ring, 0)
    else (let (buf, evicted) = push_loop ring.capacity ring.buf 0 events in
        (record ring { buf = buf }, evicted))

-- The filter of `query`. `matches` stands for `!f.is_empty() && !qname.contains(f)`, negated.
unfoldable pub selected : Option ℕ → Option ℕ → (List ℕ → Bool) → Event → Bool
selected before_seq after_seq matches ev =
    elim before_seq [ none ↦ true | some seq ↦ not (leb seq ev.seq) ]
    && elim after_seq [ none ↦ true | some seq ↦ not (leb ev.seq seq) ]
    && matches ev.qname

unfoldable pub filter_events : (Event → Bool) → List Event → List Event
filter_events p [] = []
filter_events p (x ∷ xs) = if p x then x ∷ filter_events p xs else filter_events p xs

abbrev clamp_limit : ℕ → ℕ
clamp_limit limit = min (max limit 1) 1000

unfoldable pub query : EventRing → Option ℕ → Option ℕ → ℕ → (List ℕ → Bool) → List Event
unfolding filter_events selected
query ring before_seq after_seq limit matches =
    take (clamp_limit limit)
      (filter_events (selected before_seq after_seq matches) (reverse ring.buf))

unfoldable pub clear : EventRing → EventRing
clear ring = record ring { buf = [] }
