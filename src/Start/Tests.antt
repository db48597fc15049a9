-- ===== src/Start/Tests.antt =====
-- Starts of a device with three queues.
use miniosv_apps.Prelude.{◌+◌, ◌≡◌, refl, none, some, [], ◌∷◌, ◌++◌, ◌==◌, if◌then◌else◌, decimal}
use miniosv_apps.Prelude.Int.{pos, negsuc}
use miniosv_apps.Http.{write_all, codes}
use miniosv_apps.Start.{
  Nic, drop_pools, pool_name, create_pools, setup_queues, start_queues, open_device, probe_and_open,
}
use miniosv_apps.Start.Pools.{freed}
use miniosv_apps.Start.Opened.{Opens, probe_and_open-Opens}

abbrev nic : Nic
nic = record {
  pool_for = λ q. 1000 + q;
  configured = pos 0;
  rx_desc = 4096;
  tx_desc = 1024;
  rx_ready = λ q. pos 0;
  tx_ready = λ q. pos 0;
  started = pos 0;
  mac = 2 ∷ 0 ∷ 0 ∷ 0 ∷ 0 ∷ 1 ∷ [];
}

name : pool_name 12 ≡ codes "bench-pool-12" ++ (0 ∷ [])
unfolding pool_name write_all decimal
name = refl

-- The third pool is null; the transmit side of queue 1 fails; all goes well.
no_pool :
    freed (probe_and_open (record nic { pool_for = λ q. if q == 2 then 0 else 1000 + q }) 3).1
    ≡ 1000 ∷ 1001 ∷ []
unfolding probe_and_open open_device create_pools drop_pools
no_pool = refl

no_queue :
    let r = probe_and_open (record nic { tx_ready = λ q. if q == 1 then negsuc 0 else pos 0 }) 3 in
    (r.0 ≡ none) × (freed r.1 ≡ 1000 ∷ 1001 ∷ 1002 ∷ [])
unfolding probe_and_open open_device create_pools drop_pools setup_queues start_queues
no_queue = (refl, refl)

opens : (probe_and_open nic 3).0 ≡ some (1000 ∷ 1001 ∷ 1002 ∷ [], nic.mac)
unfolding probe_and_open open_device create_pools setup_queues start_queues
opens = refl

probe_and_open-Opens_example : Opens nic 3 (probe_and_open nic 3)
probe_and_open-Opens_example = probe_and_open-Opens nic 3
