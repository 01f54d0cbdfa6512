-- ===== src/RpcHandler/Check/Health.antt =====
-- What a round of health checks of pkg/handler/rpcHandler.go does to the nodes and the error counts.
use chain_api.Common.{
  ℕ, zero, suc, ◌+◌, Bool, ◌&&◌, ◌||◌, not, ◌≡◌, refl, ◌∙◌, some, List, [], ◌∷◌, ◌==◌,
  if◌then◌else◌, get_elem?, arith,
}
use chain_api.Common.Int.{ℤ, leb_ℤ}
use chain_api.RpcHandler.{Node, RpcHandler}
use chain_api.RpcHandler.Check.{
  Numbers, Second, ws, extra_write, threshold, set_health, second_address, is_unhealthy,
  update_nodes, update_counts, finish_check,
}

-- The flag of a node's second address.
abbrev pub second_health : Second → Node → Bool
second_health ws n = n.ws_health
second_health extra_write n = n.extra_write_health

pub update_nodes_at :
    (s : Second) (least : ℤ) (nodes : List Node) (numbers : List Numbers) (i : ℕ) (n : Node)
    (a b : ℤ)
    → get_elem? nodes i ≡ some n
    → get_elem? numbers i ≡ some (a, b)
    → get_elem? (update_nodes s least nodes numbers) i
      ≡ some (set_health s (leb_ℤ least a) (leb_ℤ least b) n)
unfolding update_nodes
update_nodes_at s least [] numbers i n a b h k = cc
update_nodes_at s least (m ∷ nodes) [] i n a b h k = cc
update_nodes_at s least (m ∷ nodes) ((c, d) ∷ numbers) zero n a b h k = ground arith
update_nodes_at s least (m ∷ nodes) ((c, d) ∷ numbers) (suc i) n a b h k =
    update_nodes_at s least nodes numbers i n a b h k

update_counts_at :
    (s : Second) (least : ℤ) (nodes : List Node) (numbers : List Numbers) (counts : List ℕ) (i : ℕ)
    (n : Node) (p : Numbers) (c : ℕ)
    → get_elem? nodes i ≡ some n
    → get_elem? numbers i ≡ some p
    → get_elem? counts i ≡ some c
    → get_elem? (update_counts s least nodes numbers counts) i
      ≡ some (if is_unhealthy s least n.rpc_node p then c + 1 else c)
unfolding update_counts
update_counts_at s least [] numbers counts i n p c h k l = cc
update_counts_at s least (m ∷ nodes) [] counts i n p c h k l = cc
update_counts_at s least (m ∷ nodes) (q ∷ numbers) [] i n p c h k l = cc
update_counts_at s least (m ∷ nodes) (q ∷ numbers) (e ∷ counts) zero n p c h k l = ground arith
update_counts_at s least (m ∷ nodes) (q ∷ numbers) (e ∷ counts) (suc i) n p c h k l =
    update_counts_at s least nodes numbers counts i n p c h k l

-- An error is counted exactly where an address is left marked unhealthy.
set_health-is_unhealthy :
    (s : Second) (least a b : ℤ) (n : Node)
    → let n' = set_health s (leb_ℤ least a) (leb_ℤ least b) n in
      is_unhealthy s least n.rpc_node (a, b) ≡ (
        not (n.rpc_node.http == "") && not n'.http_health
        || not (second_address s n.rpc_node == "") && not (second_health s n'))
unfolding set_health is_unhealthy second_address
set_health-is_unhealthy ws least a b n = refl
set_health-is_unhealthy extra_write least a b n = refl

pub set_health-rpc_node :
    (s : Second) (x y : Bool) (n : Node) → (set_health s x y n).rpc_node ≡ n.rpc_node
unfolding set_health
set_health-rpc_node ws x y n = refl
set_health-rpc_node extra_write x y n = refl

module _ {Query : Type 0} (s : Second) (h : RpcHandler Query) (numbers : List Numbers) where
  -- After a round with numbers for a node, the node is at its index with its addresses, and its
  -- error count is one higher exactly if the round marks an address that the node has as unhealthy.
  pub finish_check-error_count :
      (i : ℕ) (n : Node) (p : Numbers) (c : ℕ)
      → get_elem? h.nodes i ≡ some n
      → get_elem? numbers i ≡ some p
      → get_elem? h.node_error_counts i ≡ some c
      → (n' : Node) × (get_elem? (finish_check s h numbers).nodes i ≡ some n')
        × (n'.rpc_node ≡ n.rpc_node)
        × (get_elem? (finish_check s h numbers).node_error_counts i
            ≡ some (
                if not (n.rpc_node.http == "") && not n'.http_health
                  || not (second_address s n.rpc_node == "") && not (second_health s n')
                then c + 1
                else c))
  unfolding finish_check
  finish_check-error_count i n (a, b) c hn hp hc =
      let least : ℤ = threshold numbers h.config.max_behind_blocks in
      (
        set_health s (leb_ℤ least a) (leb_ℤ least b) n,
        update_nodes_at s least h.nodes numbers i n a b hn hp,
        set_health-rpc_node s _ _ n,
        update_counts_at s least h.nodes numbers h.node_error_counts i n (a, b) c hn hp hc
            ∙ rw (set_health-is_unhealthy s least a b n),
      )
