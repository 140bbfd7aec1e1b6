-- ===== src/Ports.antt =====
-- worker/src/dpdk_filter/net_port.c: the life of a port. The calls of DPDK's device library are
-- recorded in the order in which they are made, each with whether it succeeded.
pub mod Named
pub mod Search
pub mod Stages
pub mod Trio
mod Tests
use grpc_server.Base.{
  ℕ, zero, suc, ◌+◌, Bool, true, false, not, Option, none, some, List, [], ◌∷◌, ◌++◌, Bytes, ℤ, pos,
  negsuc, strcmp_eq, if◌then◌else◌,
}

-- struct net_port: what this file uses of it, with the pool as an address
pub record Port : Type 0 where
  pub port_id : ℕ
  pub iface_name : Bytes
  pub dev_name : Bytes
  pub dev_args : Bytes
  pub mbuf_pool : ℕ
  pub mac_addr : Bytes
  pub neighbor_learned : Bool

-- What is taken from DPDK: return values, and what is written on success.
pub record EthDev : Type 0 where
  pub vdev_init : Bytes → Bytes → ℤ
  pub vdev_uninit : Bytes → ℤ
  pub count_avail : ℕ
  pub info_get : ℕ → ℤ
  -- rte_eth_dev_get_name_by_port, where it returns 0
  pub name_by_port : ℕ → Option Bytes
  pub is_valid_port : ℕ → Bool
  pub configure : ℕ → ℤ
  pub rx_queue_setup : ℕ → ℤ
  pub tx_queue_setup : ℕ → ℤ
  pub macaddr_get : ℕ → ℤ × Bytes
  pub start : ℕ → ℤ
  pub promiscuous_enable : ℕ → ℤ
  pub stop : ℕ → ℤ
  pub close : ℕ → ℤ

-- the calls that change a device
pub data Op : Type 0 where
  op_init op_configure op_rx op_tx op_start op_promiscuous op_stop op_close op_uninit : Op

-- a call, and whether it succeeded
abbrev pub Call : Type 0
Call = Op × Bool

-- `ret < 0`
abbrev pub is_negative : ℤ → Bool
is_negative (pos n) = false
is_negative (negsuc n) = true

-- `ret`, as a condition
abbrev pub is_nonzero : ℤ → Bool
is_nonzero (pos zero) = false
is_nonzero (pos (suc n)) = true
is_nonzero (negsuc n) = true

-- `(uint16_t)-1`
abbrev pub no_port : ℕ
no_port = 65535

-- -EINVAL
abbrev pub einval : ℤ
einval = negsuc 21

module _ (eth : EthDev) where
  -- the test in the loop of `find_port_by_dev_name`
  abbrev pub has_name : Bytes → ℕ → Bool
  has_name dev_name port_id = elim (eth.name_by_port port_id) [
    | some name ↦ strcmp_eq name dev_name
    | none ↦ false
  ]

  -- the loop, with `left` ports to go from `port_id`: the return value, and `*port_id_dev`
  unfoldable pub find_port_from : ℕ → ℕ → Bytes → ℤ × Option ℕ
  find_port_from zero port_id dev_name = (negsuc 0, none)
  find_port_from (suc left) port_id dev_name =
      let rest = find_port_from left (port_id + 1) dev_name in
      if is_nonzero (eth.info_get port_id)
      then (eth.info_get port_id, none)
      else if has_name dev_name port_id
      then (pos 0, some port_id)
      else rest

  unfoldable pub find_port_by_dev_name : Bytes → ℤ × Option ℕ
  unfolding find_port_from
  find_port_by_dev_name dev_name = find_port_from eth.count_avail 0 dev_name

  -- the clean-up on the error paths of `net_port_init`
  abbrev pub give_up : ℤ → Port → List Call → ℤ × Port × List Call
  give_up ret port calls =
      (ret, port, calls ++ (op_uninit, not (is_nonzero (eth.vdev_uninit port.dev_name))) ∷ [])

  -- what follows once the port has a number
  unfoldable pub set_up : Port → ℤ × Port × List Call
  set_up port =
      let id = port.port_id in
      if not (eth.is_valid_port id)
      then give_up einval port ((op_init, true) ∷ [])
      else if is_negative (eth.configure id)
      then give_up (eth.configure id) port ((op_init, true) ∷ (op_configure, false) ∷ [])
      else if is_negative (eth.rx_queue_setup id)
      then give_up (eth.rx_queue_setup id) port
          ((op_init, true) ∷ (op_configure, true) ∷ (op_rx, false) ∷ [])
      else if is_negative (eth.tx_queue_setup id)
      then give_up (eth.tx_queue_setup id) port
          ((op_init, true) ∷ (op_configure, true) ∷ (op_rx, true) ∷ (op_tx, false) ∷ [])
      else if is_negative (eth.macaddr_get id).0
      then give_up (eth.macaddr_get id).0 port
          ((op_init, true) ∷ (op_configure, true) ∷ (op_rx, true) ∷ (op_tx, true) ∷ [])
      else (
        pos 0,
        record port { mac_addr = (eth.macaddr_get id).1; neighbor_learned = false },
        (op_init, true) ∷ (op_configure, true) ∷ (op_rx, true) ∷ (op_tx, true) ∷ [],
      )

  -- what follows the search; it never returns 0 without a number
  unfoldable pub set_up_found : Port → ℤ × Option ℕ → ℤ × Port × List Call
  unfolding set_up
  set_up_found port (pos zero, some port_id) = set_up (record port { port_id = port_id })
  set_up_found port (pos zero, none) = give_up (negsuc 0) port ((op_init, true) ∷ [])
  set_up_found port (pos (suc n), found) = give_up (negsuc 0) port ((op_init, true) ∷ [])
  set_up_found port (negsuc n, found) = give_up (negsuc 0) port ((op_init, true) ∷ [])

  unfoldable pub net_port_init : Port → ℤ × Port × List Call
  unfolding set_up_found
  net_port_init port =
      let ret = eth.vdev_init port.dev_name port.dev_args in
      if is_negative ret
      then (ret, port, (op_init, false) ∷ [])
      else set_up_found port (find_port_by_dev_name port.dev_name)

  unfoldable pub net_port_start : ℕ → ℤ × List Call
  net_port_start port_id =
      if is_negative (eth.start port_id)
      then (eth.start port_id, (op_start, false) ∷ [])
      else if is_nonzero (eth.promiscuous_enable port_id)
      then (eth.promiscuous_enable port_id, (op_start, true) ∷ (op_promiscuous, false) ∷ [])
      else (pos 0, (op_start, true) ∷ (op_promiscuous, true) ∷ [])

  -- `none` is NULL.
  unfoldable pub net_port_close : Option Port → Option Port × List Call
  net_port_close none = (none, [])
  net_port_close (some port) =
      if is_nonzero (eth.stop port.port_id)
      then (some port, (op_stop, false) ∷ [])
      else if is_nonzero (eth.close port.port_id)
      then (some port, (op_stop, true) ∷ (op_close, false) ∷ [])
      else if is_nonzero (eth.vdev_uninit port.dev_name)
      then (some port, (op_stop, true) ∷ (op_close, true) ∷ (op_uninit, false) ∷ [])
      else (
        some (record port { port_id = no_port }),
        (op_stop, true) ∷ (op_close, true) ∷ (op_uninit, true) ∷ [],
      )
