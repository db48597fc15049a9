-- ===== src/Thread/Seeded.antt =====
-- The first frame that a worker's stack is given (lines 1227-1237 of bench/smoltcp-s3/src/lib.rs): it
-- tells the gateway's hardware address, so that no worker has to ask for it.
use miniosv_apps.Prelude.{
  ℕ, ◌≡◌, refl, ap, ◌∙◌, true, Option, none, some, [], ◌∷◌, arith, if◌then◌else◌, length, Bytes,
}
use miniosv_apps.Config.{Env, bytes_eq}
use miniosv_apps.Rss.{RssState}
use miniosv_apps.Arp.{build_arp_reply, parse_arp_reply_from}
use miniosv_apps.Arp.Parse.{parse_arp_reply_from-arp_frame}
use miniosv_apps.Device.{DpdkDevice, DpdkRxToken, synth, Shim, receive}
use miniosv_apps.Thread.{WorkerCtx, worker_device}

bytes_eq_self : (xs : Bytes) → bytes_eq xs xs ≡ true
unfolding bytes_eq
bytes_eq_self [] = refl
bytes_eq_self (x ∷ xs) = ground (arith, bytes_eq_self xs)

-- Addresses of the sizes that their types say.
pub record IsAddressed (ctx : WorkerCtx) : Type 0 where
  pub mac : length ctx.mac ≡ 6
  pub ip : length ctx.ip ≡ 4
  pub gateway_ip : length ctx.gateway_ip ≡ 4
  pub gateway_mac : length ctx.gateway_mac ≡ 6

-- The first frame that a stack gets from a worker's device, whatever the card brings: an answer of
-- the gateway with its hardware address. No mbuf is freed for it, and it comes once.
abbrev pub IsSeeded : WorkerCtx → Shim → Option (Option DpdkRxToken × DpdkDevice × Shim) → Type 0
IsSeeded ctx w o =
    (frame : Bytes) × (d : DpdkDevice) × (o ≡ some (some (synth frame), d, w))
    × (parse_arp_reply_from frame ctx.gateway_ip ≡ some ctx.gateway_mac)
    × (d.pending_synth ≡ none)

parse-build_arp_reply :
    (ctx : WorkerCtx)
    → IsAddressed ctx
    → parse_arp_reply_from
        (build_arp_reply ctx.gateway_mac ctx.gateway_ip ctx.mac ctx.ip)
        ctx.gateway_ip
      ≡ some ctx.gateway_mac
unfolding build_arp_reply
parse-build_arp_reply ctx sizes =
    parse_arp_reply_from-arp_frame ctx.mac ctx.gateway_mac 2 ctx.gateway_ip ctx.mac ctx.ip
      ctx.gateway_ip (sizes.mac, sizes.gateway_mac, sizes.mac) (sizes.gateway_ip, sizes.ip)
      (omega arith)
    ∙ ap (λ b. if b then some ctx.gateway_mac else none) (bytes_eq_self ctx.gateway_ip)

-- Where a worker's addresses have six and four bytes, its stack first receives the worker's own ARP
-- reply: it is an answer of the gateway, and names the hardware address in its `WorkerCtx`.
pub worker_device-IsSeeded :
    (env : Env) (st : RssState) (ctx : WorkerCtx) (fuel : ℕ) (w : Shim)
    → IsAddressed ctx
    → IsSeeded ctx w (receive fuel (worker_device env st ctx) w)
unfolding receive worker_device
worker_device-IsSeeded env st ctx fuel w sizes = (
  build_arp_reply ctx.gateway_mac ctx.gateway_ip ctx.mac ctx.ip,
  record (worker_device env st ctx) { pending_synth = none },
  refl,
  parse-build_arp_reply ctx sizes,
  refl,
)
