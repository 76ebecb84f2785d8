-- ===== src/ConnectionManager/Traces.antt =====
-- connection_manager.go: any interleaving of the calls that nodes and the expiry routine make,
-- each in whatever world it finds.
use riak_go_client.Prelude.{
  ℕ, suc, ◌+◌, ◌≤◌, ◌≡◌, sym, ap, subst, subst₂, ◌∙◌, Option, none, arith, length, ok, ok-injective,
}
use riak_go_client.Errors.{Error}
use riak_go_client.ConnectionManager.{ConnectionManager, ConnApi, get, put, remove}
use riak_go_client.ConnectionManager.Lifecycle.{expire}
use riak_go_client.ConnectionManager.Invariant.{Inv, held, get-Makes, put-Inv, remove-Inv}
use riak_go_client.ConnectionManager.Expiry.{expire-Expired}

module _ {C W : Type 0} (api : ConnApi C W) where
  -- A call, on a manager and a number of held connections.
  pub data Step (cm : ConnectionManager C) (out : ℕ) : ConnectionManager C → ℕ → Type 0 where
    got :
        {cm' : ConnectionManager C} {out' : ℕ} (conn : Option C) (e : Option Error) (w w' : W)
        → get api cm w ≡ ok (cm', conn, e, w')
        → out' ≡ held conn + out
        → Step cm out cm' out'
    gave :
        {cm' : ConnectionManager C} {out' : ℕ} (c : C) (e : Option Error) (w w' : W)
        → put api cm c w ≡ ok (cm', e, w')
        → out ≡ suc out'
        → Step cm out cm' out'
    dropped :
        {cm' : ConnectionManager C} {out' : ℕ} (c : C) (w : W)
        → (remove api cm c w).0 ≡ cm'
        → out ≡ suc out'
        → Step cm out cm' out'
    ticked :
        {cm' : ConnectionManager C} {out' : ℕ} (now closed : ℕ) (w w' : W)
        → expire api now cm w ≡ ok (cm', closed, w')
        → out' ≡ out
        → Step cm out cm' out'

  pub data Reach (cm : ConnectionManager C) (out : ℕ) : ConnectionManager C → ℕ → Type 0 where
    here : Reach cm out cm out
    next :
        {cm' cm'' : ConnectionManager C} {out' out'' : ℕ}
        → Reach cm out cm' out'
        → Step cm' out' cm'' out''
        → Reach cm out cm'' out''

  Step-Inv :
      {cm cm' : ConnectionManager C} {out out' : ℕ}
      → Step cm out cm' out'
      → Inv api cm out
      → Inv api cm' out'
  Step-Inv {cm} {out = out} (got conn e w w' runs count) v =
      let g = get-Makes api cm out w v in
      let same = ok-injective (sym g.runs ∙ runs) in
      subst₂ (Inv api) (λ i. (same i).0) (ap (λ c. held c + out) (λ i. (same i).1) ∙ sym count)
        g.made.valid
  Step-Inv {cm} {out' = out'} (gave c e w w' runs count) v =
      let (cm'', puts, v') = put-Inv api cm out' c w (subst (Inv api cm) count v) in
      let same = ok-injective (sym puts ∙ runs) in subst (λ m. Inv api m out') (λ i. (same i).0) v'
  Step-Inv {cm} {out' = out'} (dropped c w runs count) v =
      subst (λ m. Inv api m out') runs (remove-Inv api cm out' c w (subst (Inv api cm) count v))
  Step-Inv {cm} {out = out} (ticked now closed w w' runs count) v =
      let x = expire-Expired api now cm out w v in
      let same = ok-injective (sym x.runs ∙ runs) in
      subst₂ (Inv api) (λ i. (same i).0) (sym count) x.valid

  Reach-Inv :
      {cm : ConnectionManager C} {out : ℕ} {cm' : ConnectionManager C} {out' : ℕ}
      → Inv api cm out
      → Reach cm out cm' out'
      → Inv api cm' out'
  Reach-Inv v here = v
  Reach-Inv v (next r s) = Step-Inv s (Reach-Inv v r)

  -- From a manager that satisfies the invariant, after any sequence of calls of `get`, `put` and
  -- `remove` of held connections, and of ticks: the queued and the held connections are together at
  -- most `maxConnections`, and a held connection can be given back without an error.
  pub Reach_bounds :
      {cm : ConnectionManager C} {out : ℕ} {cm' : ConnectionManager C} {out' : ℕ}
      → Inv api cm out
      → Reach cm out cm' out'
      → (length cm'.q.queue_chan + out' ≤ cm'.max_connections)
        × ((held_before : ℕ) (c : C) (w : W)
            → out' ≡ suc held_before
            → (cm'' : ConnectionManager C) × (put api cm' c w ≡ ok (cm'', none, w)))
  Reach_bounds v r =
      let v' = Reach-Inv v r in
      (
        omega (arith, v'),
        λ k c w e.
            let (cm'', puts, _) = put-Inv api _ k c w (subst (Inv api _) e v') in (cm'', puts),
      )
