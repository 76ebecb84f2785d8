-- ===== src/Node/Conservation.antt =====
-- node.go: `execute` gives the connection that it takes back to the manager, or closes it.
use riak_go_client.Prelude.{
  ℕ, ◌≡◌, Bool, true, false, Option, none, some, [], ◌∷◌, ◌++◌, Run, ok, panic, spins,
}
use riak_go_client.Errors.{Error, client_error, client_error_inner, riak_error}
use riak_go_client.States.{is_current_state}
use riak_go_client.Command.{CommandApi}
use riak_go_client.ConnectionManager.{ConnectionManager, ConnApi, get, decrement}
use riak_go_client.ConnectionManager.Invariant.{Inv}
use riak_go_client.Node.{Node, NodeOutcome, node_running, mark}

-- No error, or one of a kind behind which the connection can be used again: those of the client and
-- those of Riak.
abbrev pub kept : Option Error → Bool
kept none = true
kept (some (client_error m)) = true
kept (some (client_error_inner m e)) = true
kept (some (riak_error code text)) = true
kept (some e) = false

module _ {C K W Msg : Type 0} (api : ConnApi C W) (cmds : CommandApi K Msg)
    (conn_execute : C → K → W → Run (C × K × Option Error × W)) where
  -- What has become of a connection that `execute` left with an error or none, from the manager
  -- and the world before to those after: it stands at the back of the queue, or it was closed and
  -- is not counted any more.
  abbrev pub Disposed : ConnectionManager C → C → W → ConnectionManager C → W → Bool → Type 0
  Disposed cm c w cm' w' true =
      (cm' ≡ record cm { q = record cm.q { queue_chan = cm.q.queue_chan ++ c ∷ [] } }) × (w' ≡ w)
  Disposed cm c w cm' w' false =
      (cm' ≡ record cm { connection_counter = decrement cm.connection_counter })
      × (w' ≡ (api.close c w).2)

  -- The node's outcome, by how the execution on the connection that it took ended: a panic and a
  -- loop without end are passed on.
  abbrev pub Finishes :
      ConnectionManager C
      → ℕ
      → Run (C × K × Option Error × W)
      → NodeOutcome api cmds conn_execute
      → Type 0
  Finishes cm out (panic p) o = o ≡ panic p
  Finishes cm out spins o = o ≡ spins
  Finishes cm out (ok (c, k, e, w)) o =
      (n' : Node C) × (w' : W) × (o ≡ ok (n', true, e, k, w'))
      × Inv api n'.cm out
      × Disposed cm c w n'.cm w' (kept e)

  -- The ways in which a call can go.
  pub data Conserves (self : ℕ) (n : Node C) (out : ℕ) (k : K) (w : W)
      : NodeOutcome api cmds conn_execute → Type 0 where
    refused :
        (e : Option Error)
        → is_current_state n.state_data node_running ≡ false
        → Conserves self n out k w (ok (n, false, e, k, w))
    unserved :
        (n' : Node C) (e : Error) (w' : W)
        → get api n.cm w ≡ ok (n'.cm, none, some e, w')
        → Inv api n'.cm out
        → Conserves self n out k w (ok (n', false, some e, k, w'))
    taken :
        (cm : ConnectionManager C) (c : C) (w' : W) (o : NodeOutcome api cmds conn_execute)
        → get api n.cm w ≡ ok (cm, some c, none, w')
        → Finishes cm out (conn_execute c (mark api cmds conn_execute self k) w') o
        → Conserves self n out k w o

  appended : ConnectionManager C → C → ConnectionManager C
  appended cm c = record cm { q = record cm.q { queue_chan = cm.q.queue_chan ++ c ∷ [] } }
