-- ===== src/Resolver/Steps.antt =====
-- A query's way through the filters of its rule ends with a whole response, with silence or with
-- an error: `resolve_with_filters` of src/resolver.rs.
use pathdns.Base.{
  ℕ, zero, suc, subst, arith, ◌<◌, ◌≡◌, List, [], ◌∷◌, ◌++◌, Bool, true, false, Option, none, some,
  Outcome, ok, ◌>>=◌, Returns, Returns-bind, length, get_elem?, All, refl,
}
use pathdns.Base.Bytes.{IsBytes}
use pathdns.Dns.Rr.{IpAddr, answer_ips}
use pathdns.ResponseFilter.{ResponseFilter, FilterAction, accept, drop_reply, forward}
use pathdns.ResponseFilter.First.{answer_ips_total, IsFirst, first_match-IsFirst}
use pathdns.Cache.Backend.{Store}
use pathdns.Verdict.{VerdictEntry, VerdictCache}
use pathdns.Router.{
  index, RouteTarget, rule_target, server_target, race_target, cidr_test, RoutingConfig, PoolRule,
}
use pathdns.Resolver.Exchange.{QueryContext, exchange_kind, Rules}
use pathdns.Resolver.Filters.{
  StepOutcome, response, drop_query, AddIps, accept_ips, apply_filters, filtered,
  resolve_with_filters,
}
use pathdns.Resolver.Context.{IsQueryContext}
use pathdns.Resolver.Whole.{IsWholeReply}
use pathdns.Resolver.Ends.{IsKind, IsTarget, exchange_kind-Returns, do_upstream_exchange-Replies}

-- What a query comes to is silence or a whole response.
abbrev pub IsWholeStep : QueryContext → StepOutcome → Type 0
IsWholeStep ctx (response resp winner forwarded) = IsWholeReply ctx resp
IsWholeStep ctx drop_query = Unit {0}

-- The servers that the filters forward to are there.
abbrev pub GoesTo : ℕ → FilterAction → Type 0
GoesTo n accept = Unit {0}
GoesTo n drop_reply = Unit {0}
GoesTo n (forward idx) = idx < n

abbrev pub HasServers : {Pool : Type 0} → ℕ → RouteTarget Pool → Type 0
HasServers n (rule_target rule i) = All (λ f. GoesTo n f.action) rule.filters
HasServers n (server_target s i) = Unit {0}
HasServers n (race_target p s) = Unit {0}
HasServers n (cidr_test p s) = Unit {0}

All-at :
    {A : Type 0} (P : A → Type 0) (xs : List A) (i : ℕ)
    → All P xs
    → i < length xs
    → (x : A) × (get_elem? xs i ≡ some x) × P x
All-at P [] i h k = absurd (omega arith)
All-at P (x ∷ xs) zero h k = (x, refl, h.0)
All-at P (x ∷ xs) (suc i) h k = All-at P xs i h.1 (omega arith)

All-middle :
    {A : Type 0} (P : A → Type 0) (before : List A) (x : A) (after xs : List A)
    → xs ≡ before ++ (x ∷ after)
    → All P xs
    → P x
All-middle {A} P before x after xs e h = go before (subst (All P) e h)
  where
    go : (before : List A) → All P (before ++ (x ∷ after)) → P x
    go [] h = h.0
    go (y ∷ ys) h = go ys h.1

module _ (ctx : QueryContext) (c : IsQueryContext ctx) (Pool : Type 0)
    (exchange : Pool → List ℕ → Outcome (List ℕ))
    (pools : (pool : Pool) → Returns (IsWholeReply ctx) (exchange pool ctx.packet)) (Regex : Type 0)
    (is_match : Regex → List ℕ → Bool) (wild : List ℕ → Option Regex) where
  abbrev Db : Type 0
  Db = Rules Pool exchange Regex is_match wild

  abbrev Steps : Outcome (List AddIps × StepOutcome) → Type 0
  Steps m = Returns (λ r. IsWholeStep ctx r.1) m

  accept_ips-Returns :
      (has_ipset : Bool) (resp : List ℕ) (i j : ℕ)
      → IsBytes resp
      → Returns (λ adds. Unit {0}) (accept_ips has_ipset resp ctx.question_end i j)
  unfolding accept_ips
  accept_ips-Returns false resp i j b = tt
  accept_ips-Returns true resp i j b =
      let (ips, e) = answer_ips_total resp ctx.question_end b in go ips e
    where
      go :
          (ips : List IpAddr)
          → answer_ips resp ctx.question_end ≡ ok ips
          → Returns (λ adds. Unit {0}) (accept_ips true resp ctx.question_end i j)
      go [] e = rw (accept_ips, e) tt
      go (ip ∷ ips) e = rw (accept_ips, e) tt

  module _ (hot : RoutingConfig Pool) (servers : All (λ s. IsKind s.kind) hot.servers) where
    apply_filters-Steps :
        (rule_sets : Option Db) (has_ipset : Bool) (rule : PoolRule Pool) (idx : ℕ) (resp : List ℕ)
        (winner : Option ℕ)
        → All (λ f. GoesTo (length hot.servers) f.action) rule.filters
        → IsWholeReply ctx resp
        → Steps (
            apply_filters Pool exchange Regex is_match wild ctx hot rule_sets has_ipset rule idx
              resp winner)
    unfolding apply_filters
    apply_filters-Steps rule_sets has_ipset rule idx resp winner goes w =
        let (o, e, h) =
          first_match-IsFirst Regex is_match wild rule.filters rule_sets resp ctx.question_end
            w.0 in
        rw (apply_filters, e) (found o h)
      where
        act :
            (i : ℕ) (a : FilterAction)
            → GoesTo (length hot.servers) a
            → Steps (elim a [
              | drop_reply ↦ ok ([], drop_query)
              | forward target_idx ↦ (do
                s ← index hot.servers target_idx
                b ← exchange_kind Pool exchange ctx s.kind
                ok ([], response b none (some target_idx)))
              | accept ↦ (do
                adds ← accept_ips has_ipset resp ctx.question_end idx i
                ok (adds, response resp winner none))
            ])
        act i drop_reply g = tt
        act i accept g =
            Returns-bind (λ adds. Unit {0}) (λ r. IsWholeStep ctx r.1)
              (accept_ips has_ipset resp ctx.question_end idx i) _
              (accept_ips-Returns has_ipset resp idx i w.0) (λ adds e u. w)
        act i (forward target_idx) g =
            let (s, e, k) = All-at (λ s. IsKind s.kind) hot.servers target_idx servers g in
            rw (index, e)
              (Returns-bind (IsWholeReply ctx) (λ r. IsWholeStep ctx r.1)
                (exchange_kind Pool exchange ctx s.kind) _
                (exchange_kind-Returns ctx Pool exchange pools c s.kind k) (λ b e u. u))

        found :
            (o : Option (ℕ × ResponseFilter))
            → IsFirst Regex is_match wild rule_sets resp ctx.question_end rule.filters 0 o
            → Steps (elim o [
              | none ↦ ok ([], response resp winner none)
              | some (filter_idx, filter) ↦ elim filter.action [
                | drop_reply ↦ ok ([], drop_query)
                | forward target_idx ↦ (do
                  s ← index hot.servers target_idx
                  b ← exchange_kind Pool exchange ctx s.kind
                  ok ([], response b none (some target_idx)))
                | accept ↦ (do
                  adds ← accept_ips has_ipset resp ctx.question_end idx filter_idx
                  ok (adds, response resp winner none))
              ]
            ])
        found none h = w
        found (some (i, f)) (before, after, split, _, _, _) = act i f.action (
            All-middle (λ f. GoesTo (length hot.servers) f.action) before f after rule.filters split
              goes)

    filtered-Steps :
        (rule_sets : Option Db) (has_ipset : Bool) (target : RouteTarget Pool) (resp : List ℕ)
        (winner : Option ℕ)
        → HasServers (length hot.servers) target
        → IsWholeReply ctx resp
        → Steps (
            filtered Pool exchange Regex is_match wild ctx hot rule_sets has_ipset target resp
              winner)
    unfolding filtered
    filtered-Steps rule_sets has_ipset (rule_target rule i) resp winner g w =
        apply_filters-Steps rule_sets has_ipset rule i resp winner g w
    filtered-Steps rule_sets has_ipset (server_target s i) resp winner g w = w
    filtered-Steps rule_sets has_ipset (race_target p s) resp winner g w = w
    filtered-Steps rule_sets has_ipset (cidr_test p s) resp winner g w = w

    module _ (S : Store (List ℕ) VerdictEntry) where
      open S use {State}

      pub resolve_with_filters-Steps :
          (vc : VerdictCache State) (hot_rule_sets rule_sets : Option Db)
          (has_ipset first unchanged : Bool) (started now : ℕ) (target : RouteTarget Pool)
          → IsTarget target
          → HasServers (length hot.servers) target
          → Steps
              (resolve_with_filters Pool exchange Regex is_match wild S vc ctx hot hot_rule_sets
                rule_sets has_ipset first unchanged started now target).1
      unfolding resolve_with_filters
      resolve_with_filters-Steps vc hot_rule_sets rule_sets has_ipset first unchanged started now
            target k g =
          Returns-bind (λ r. IsWholeReply ctx r.0) (λ r. IsWholeStep ctx r.1) _ _
            (do_upstream_exchange-Replies ctx Pool exchange pools c Regex is_match wild S vc hot
              hot_rule_sets first unchanged started now target k)
            (λ r e w. filtered-Steps rule_sets has_ipset target r.0 r.1 g w)
