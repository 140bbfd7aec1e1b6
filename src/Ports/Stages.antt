-- ===== src/Ports/Stages.antt =====
-- The order of the calls on a device.
use grpc_server.Base.{
  zero, suc, ◌≡◌, ◌≢◌, refl, ◌⊎◌, inl, inr, Bool, true, false, ◌&&◌, Option, none, some, List, [],
  ◌∷◌, ℤ, pos, negsuc, ℕ, Bool-cases, if◌then◌else◌, arith,
}
use grpc_server.Ports.{
  Port, EthDev, Op, op_init, op_configure, op_rx, op_tx, op_start, op_promiscuous, op_stop,
  op_close, op_uninit, Call, is_negative, is_nonzero, no_port, find_port_by_dev_name, set_up,
  set_up_found, net_port_init, net_port_start, net_port_close,
}

-- How far a device is.
pub data Stage : Type 0 where
  absent attached configured rx_ready ready started closed : Stage

-- A call that succeeds: the next stage, or `none` where DPDK does not allow the call. A device that is
-- not started is stopped already.
unfoldable pub advance : Stage → Op → Option Stage
advance absent op_init = some attached
advance attached op_configure = some configured
advance configured op_rx = some rx_ready
advance rx_ready op_tx = some ready
advance ready op_start = some started
advance started op_promiscuous = some started
advance started op_stop = some ready
advance ready op_stop = some ready
advance ready op_close = some closed
advance attached op_uninit = some absent
advance configured op_uninit = some absent
advance rx_ready op_uninit = some absent
advance ready op_uninit = some absent
advance closed op_uninit = some absent
advance s op = none

-- A sequence of calls; one that fails leaves the stage.
unfoldable pub after : Stage → List Call → Option Stage
unfolding advance
after s [] = some s
after s ((op, ok) ∷ calls) = elim (advance s op) [
  | none ↦ none
  | some s' ↦ if ok then after s' calls else after s calls
]

negative_ne : (ret : ℤ) → is_negative ret ≡ true → ret ≢ pos 0
negative_ne ret h e = ground arith

-- whether all calls succeeded
abbrev pub all_ok : List Call → Bool
all_ok [] = true
all_ok ((op, ok) ∷ calls) = ok && all_ok calls

-- whether a call was made
abbrev pub tried : List Call → Bool
tried [] = false
tried (call ∷ calls) = true

-- Success leaves a device that is ready, with its MAC address and no neighbour; an error leaves none.
abbrev pub InitOk : EthDev → ℤ × Port × List Call → Type 0
InitOk eth (ret, port', calls) =
    ((ret ≡ pos 0)
      × (all_ok calls ≡ true)
      × (after absent calls ≡ some ready)
      × (port'.neighbor_learned ≡ false)
      × (port'.mac_addr ≡ (eth.macaddr_get port'.port_id).1))
    ⊎ ((ret ≢ pos 0) × (tried calls ≡ true) × (after absent calls ≡ some absent))

module _ (eth : EthDev) (port : Port)
    (uninit_ok : is_nonzero (eth.vdev_uninit port.dev_name) ≡ false) where
  set_up-InitOk : (port_id : ℕ) → InitOk eth (set_up eth (record port { port_id = port_id }))
  unfolding set_up after advance
  set_up-InitOk id = elim (Bool-cases (eth.is_valid_port id)) [
    | inr e ↦ rw (e, uninit_ok) (inr (λ z. ground arith, refl, refl))
    | inl e ↦ rw e (elim (Bool-cases (is_negative (eth.configure id))) [
      | inl f ↦ rw (f, uninit_ok) (inr (negative_ne _ f, refl, refl))
      | inr f ↦ rw f (elim (Bool-cases (is_negative (eth.rx_queue_setup id))) [
        | inl g ↦ rw (g, uninit_ok) (inr (negative_ne _ g, refl, refl))
        | inr g ↦ rw g (elim (Bool-cases (is_negative (eth.tx_queue_setup id))) [
          | inl k ↦ rw (k, uninit_ok) (inr (negative_ne _ k, refl, refl))
          | inr k ↦ rw k (elim (Bool-cases (is_negative (eth.macaddr_get id).0)) [
            | inl m ↦ rw (m, uninit_ok) (inr (negative_ne _ m, refl, refl))
            | inr m ↦ rw m (inl (refl, refl, refl, refl, refl))
          ])
        ])
      ])
    ])
  ]

  set_up_found-InitOk : (r : ℤ × Option ℕ) → InitOk eth (set_up_found eth port r)
  unfolding set_up_found after advance
  set_up_found-InitOk (pos zero, some id) = set_up-InitOk id
  set_up_found-InitOk (pos zero, none) = rw uninit_ok (inr (λ z. ground arith, refl, refl))
  set_up_found-InitOk (pos (suc n), found) = rw uninit_ok (inr (λ z. ground arith, refl, refl))
  set_up_found-InitOk (negsuc n, found) = rw uninit_ok (inr (λ z. ground arith, refl, refl))

  -- If the removal of the virtual device succeeds where it is tried: `net_port_init` makes its calls
  -- in an order that DPDK allows, and either returns 0 with a ready device, its MAC address stored
  -- and no neighbour learned, or returns another value and leaves no device behind.
  pub net_port_init-InitOk : InitOk eth (net_port_init eth port)
  unfolding net_port_init after advance
  net_port_init-InitOk =
      elim (Bool-cases (is_negative (eth.vdev_init port.dev_name port.dev_args))) [
        | inl e ↦ rw e (inr (negative_ne _ e, refl, refl))
        | inr e ↦ rw e (set_up_found-InitOk (find_port_by_dev_name eth port.dev_name))
      ]

nonzero_ne : (ret : ℤ) → is_nonzero ret ≡ true → ret ≢ pos 0
nonzero_ne ret h e = ground arith

-- A ready device is started and promiscuous, where the device takes both calls; or the call that it
-- does not take is the last one, its answer is returned, and the device is ready or started.
abbrev pub StartOk : EthDev → ℕ → ℤ × List Call → Type 0
StartOk eth id (ret, calls) =
    ((ret ≡ pos 0)
      × (is_negative (eth.start id) ≡ false)
      × (is_nonzero (eth.promiscuous_enable id) ≡ false)
      × (all_ok calls ≡ true)
      × (after ready calls ≡ some started)
      × (calls ≡ (op_start, true) ∷ (op_promiscuous, true) ∷ []))
    ⊎ ((ret ≢ pos 0)
        × (all_ok calls ≡ false)
        × (((ret ≡ eth.start id)
              × (is_negative (eth.start id) ≡ true)
              × (after ready calls ≡ some ready))
            ⊎ ((ret ≡ eth.promiscuous_enable id)
                × (is_negative (eth.start id) ≡ false)
                × (is_nonzero (eth.promiscuous_enable id) ≡ true)
                × (after ready calls ≡ some started))))

-- The port has no number and no device is left, where the device takes all three calls; or the port
-- is as it was, and the device is in the stage before the first call that it does not take.
abbrev pub CloseOk : EthDev → Port → Option Port × List Call → Type 0
CloseOk eth port (port', calls) =
    ((port' ≡ some (record port { port_id = no_port }))
      × (is_nonzero (eth.stop port.port_id) ≡ false)
      × (is_nonzero (eth.close port.port_id) ≡ false)
      × (is_nonzero (eth.vdev_uninit port.dev_name) ≡ false)
      × (after started calls ≡ some absent)
      × (calls ≡ (op_stop, true) ∷ (op_close, true) ∷ (op_uninit, true) ∷ []))
    ⊎ ((port' ≡ some port)
        × (all_ok calls ≡ false)
        × (((is_nonzero (eth.stop port.port_id) ≡ true) × (after started calls ≡ some started))
            ⊎ ((is_nonzero (eth.stop port.port_id) ≡ false)
                × (is_nonzero (eth.close port.port_id) ≡ true)
                × (after started calls ≡ some ready))
            ⊎ ((is_nonzero (eth.stop port.port_id) ≡ false)
                × (is_nonzero (eth.close port.port_id) ≡ false)
                × (is_nonzero (eth.vdev_uninit port.dev_name) ≡ true)
                × (after started calls ≡ some closed))))

module _ (eth : EthDev) where
  pub net_port_start-StartOk : (port_id : ℕ) → StartOk eth port_id (net_port_start eth port_id)
  unfolding net_port_start after advance
  net_port_start-StartOk id = elim (Bool-cases (is_negative (eth.start id))) [
    | inl e ↦ rw e (inr (negative_ne _ e, refl, inl (refl, refl, refl)))
    | inr e ↦ rw e (elim (Bool-cases (is_nonzero (eth.promiscuous_enable id))) [
      | inl f ↦ rw f (inr (nonzero_ne _ f, refl, inr (refl, refl, refl, refl)))
      | inr f ↦ rw f (inl (refl, refl, refl, refl, refl, refl))
    ])
  ]

  net_port_close-CloseOk : (port : Port) → CloseOk eth port (net_port_close eth (some port))
  unfolding net_port_close after advance
  net_port_close-CloseOk port = elim (Bool-cases (is_nonzero (eth.stop port.port_id))) [
    | inl e ↦ rw e (inr (refl, refl, inl (refl, refl)))
    | inr e ↦ rw e (elim (Bool-cases (is_nonzero (eth.close port.port_id))) [
      | inl f ↦ rw f (inr (refl, refl, inr (inl (refl, refl, refl))))
      | inr f ↦ rw f (elim (Bool-cases (is_nonzero (eth.vdev_uninit port.dev_name))) [
        | inl g ↦ rw g (inr (refl, refl, inr (inr (refl, refl, refl, refl))))
        | inr g ↦ rw g (inl (refl, refl, refl, refl, refl, refl))
      ])
    ])
  ]

  -- `net_port_start` on a ready device and `net_port_close` on a started one make their calls in an
  -- order that DPDK allows. The first returns 0 with a started device where the device takes the start
  -- and the promiscuous mode, which are its two calls; otherwise it returns the answer of the call that failed, and the device
  -- is ready or started. The second takes the port's number away and leaves no device where the device
  -- is stopped, closed and removed, by three calls; otherwise the port is as it was and the device is in the stage
  -- before the first of these calls that failed.
  pub start_close_stages :
      (port : Port)
      → StartOk eth port.port_id (net_port_start eth port.port_id)
        × CloseOk eth port (net_port_close eth (some port))
  start_close_stages port = (net_port_start-StartOk port.port_id, net_port_close-CloseOk port)
