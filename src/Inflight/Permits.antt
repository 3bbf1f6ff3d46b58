-- ===== src/Inflight/Permits.antt =====
-- The cap on the queries in flight (src/upstream/inflight.rs).
use pathdns.Base.{
  ℕ, zero, suc, ◌+◌, ◌<◌, ◌≡◌, ◌≢◌, length-append, ◌∙◌, List, [], ◌∷◌, ◌++◌, Bool, true, Option,
  none, some, ok, length, Returns-ok, arith, ap, sym, subst, All, lt→ltb,
}
use pathdns.Base.Bytes.{IsBytes}
use pathdns.Inflight.{
  InflightRegistry, InflightGuard, registered, cap_reached, table_full, Completion, delivered,
  no_waiter, mismatch, new, register, complete, clear, drop_guard, release, try_acquire,
}
use pathdns.Inflight.{Registration}
use pathdns.Inflight.Table.{IsRegistered, register-IsRegistered}
use pathdns.Inflight.Complete.{IsCompleted, complete-IsCompleted}

-- A registry that calls made from a new one, with the guards that are alive.
pub data Holds (seed max_inflight : ℕ) : InflightRegistry → List InflightGuard → Type 0 where
  starts : Holds seed max_inflight (new seed max_inflight) []
  registers :
      {r r' : InflightRegistry} {gs : List InflightGuard}
      → (client_id id tx : ℕ) (question : List ℕ) (guard : InflightGuard)
      → Holds seed max_inflight r gs
      → register r client_id question ≡ (r', registered id tx guard)
      → Holds seed max_inflight r' (guard ∷ gs)
  reaches_cap :
      {r r' : InflightRegistry} {gs : List InflightGuard}
      → (client_id : ℕ) (question : List ℕ) → Holds seed max_inflight r gs
      → register r client_id question ≡ (r', cap_reached)
      → Holds seed max_inflight r' gs
  fills :
      {r r' : InflightRegistry} {gs : List InflightGuard}
      → (client_id : ℕ) (question : List ℕ) → Holds seed max_inflight r gs
      → register r client_id question ≡ (r', table_full)
      → Holds seed max_inflight r' gs
  completes :
      {r r' : InflightRegistry} {gs : List InflightGuard}
      → (packet packet' : List ℕ) (c : Completion) → Holds seed max_inflight r gs
      → IsBytes packet
      → complete r packet ≡ ok (r', packet', c)
      → Holds seed max_inflight r' gs
  drops :
      {r : InflightRegistry}
      → (gs hs : List InflightGuard) (guard : InflightGuard)
      → Holds seed max_inflight r (gs ++ (guard ∷ hs))
      → Holds seed max_inflight (drop_guard r guard) (gs ++ hs)
  clears :
      {r : InflightRegistry} {gs : List InflightGuard}
      → Holds seed max_inflight r gs
      → Holds seed max_inflight (clear r) gs

-- Each guard has a permit, and the free permits are the rest of the cap.
abbrev pub Balanced : ℕ → Option ℕ → List InflightGuard → Type 0
Balanced max_inflight cap gs =
    All (λ g. g.permit ≡ true) gs
    × ((free : ℕ) × (cap ≡ some free) × (free + length gs ≡ max_inflight))

none-some : {x : Option ℕ × Bool} → none ≢ some x
none-some h = cc

pair-injective :
    {a b : Option ℕ} {p q : Bool}
    → ◌≡◌ {A = Option (Option ℕ × Bool)} (some (a, p)) (some (b, q))
    → (a ≡ b) × (p ≡ q)
pair-injective h = (cc, cc)

All-middle :
    (P : InflightGuard → Type 0) (gs hs : List InflightGuard) (g : InflightGuard)
    → All P (gs ++ (g ∷ hs))
    → P g × All P (gs ++ hs)
All-middle P [] hs g (h, all) = (h, all)
All-middle P (x ∷ gs) hs g (h, all) = let (p, rest) = All-middle P gs hs g all in (p, (h, rest))

Balanced-acquire :
    (max_inflight : ℕ) (cap cap' : Option ℕ) (g : InflightGuard) (gs : List InflightGuard)
    → try_acquire cap ≡ some (cap', g.permit)
    → Balanced max_inflight cap gs
    → Balanced max_inflight cap' (g ∷ gs)
unfolding try_acquire
Balanced-acquire m cap cap' g gs e (all, (zero, c, n)) =
    absurd (none-some (subst (λ k. try_acquire k ≡ some (cap', g.permit)) c e))
Balanced-acquire m cap cap' g gs e (all, (suc free, c, n)) =
    let (left, held) = pair-injective (subst (λ k. try_acquire k ≡ some (cap', g.permit)) c e) in
    ((sym held, all), (free, sym left, omega arith))

Balanced-release :
    (max_inflight : ℕ) (cap : Option ℕ) (gs : List InflightGuard) (g : InflightGuard)
    (hs : List InflightGuard)
    → Balanced max_inflight cap (gs ++ (g ∷ hs))
    → Balanced max_inflight (release g.permit cap) (gs ++ hs)
unfolding release
Balanced-release m cap gs g hs (all, (free, c, n)) =
    let (held, rest) = All-middle (λ g. g.permit ≡ true) gs hs g all in
    (
      rest,
      (
        suc free,
        ap (release g.permit) c ∙ ap (λ b. release b (some free)) held,
        omega (arith, length-append gs (g ∷ hs), length-append gs hs),
      ),
    )

result_of :
    (r r' : InflightRegistry) (client_id : ℕ) (question : List ℕ) (result : Registration)
    → register r client_id question ≡ (r', result)
    → IsRegistered r client_id question r' result
result_of r r' client_id question result e =
    subst (λ s. IsRegistered r client_id question s.0 s.1) e
      (register-IsRegistered r client_id question)

completed_cap :
    (r r' : InflightRegistry) (packet packet' : List ℕ) (c : Completion)
    → IsCompleted r packet (r', packet', c)
    → r'.cap ≡ r.cap
completed_cap r r' packet packet' no_waiter (e, _) = ap (λ s. s.cap) e
completed_cap r r' packet packet' (mismatch id) (e, _, _) = ap (λ s. s.cap) e
completed_cap r r' packet packet' delivered (id, entry, q, a, _, _, _, _, _, cap, _) = cap

-- In a registry that any registrations, completions, drops of guards and clearings made from a
-- new one with a positive cap, each live guard holds a permit, and the free permits and the live
-- guards add up to the cap.
pub permits_balance :
    (seed max_inflight : ℕ) (r : InflightRegistry) (gs : List InflightGuard)
    → 0 < max_inflight
    → Holds seed max_inflight r gs
    → Balanced max_inflight r.cap gs
unfolding new clear drop_guard
permits_balance seed m r gs p starts = (tt, (m, ground (arith, lt→ltb 0 m p), omega arith))
permits_balance seed m r gs p (registers c id tx q g h e) =
    let (_, _, _, _, took, _, _) = result_of _ _ c q _ e in
    Balanced-acquire m _ r.cap g _ took (permits_balance seed m _ _ p h)
permits_balance seed m r gs p (reaches_cap c q h e) =
    let (_, same) = result_of _ _ c q _ e in
    subst (λ s. Balanced m s.cap gs) (sym same) (permits_balance seed m _ gs p h)
permits_balance seed m r gs p (fills c q h e) =
    let (_, same, _, _) = result_of _ _ c q _ e in
    subst (λ s. Balanced m s gs) (sym same) (permits_balance seed m _ gs p h)
permits_balance seed m r gs p (completes packet packet' c h b e) =
    let done =
      Returns-ok (IsCompleted _ packet) (complete _ packet) (r, packet', c)
        (complete-IsCompleted _ packet b) e in
    subst (λ s. Balanced m s gs) (sym (completed_cap _ r packet packet' c done))
      (permits_balance seed m _ gs p h)
permits_balance seed m _ _ p (drops gs hs g h) =
    Balanced-release m _ gs g hs (permits_balance seed m _ _ p h)
permits_balance seed m _ gs p (clears h) = permits_balance seed m _ gs p h
