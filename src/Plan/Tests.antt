-- ===== src/Plan/Tests.antt =====
-- Blocks of small objects, and the plan of a worker with two ports.
use miniosv_apps.Prelude.{ℕ, ◌<◌, ◌≡◌, refl, Bool, true, none, some, [], ◌∷◌, arith}
use miniosv_apps.Config.{Env, parse_size, parse_size_from, object_size, block_size, suffix_mult}
use miniosv_apps.Plan.{clamp_workers, block_start, block_end, open_conns}
use miniosv_apps.Plan.Blocks.{blocks-apart}
use miniosv_apps.Plan.Opened.{BlocksIf, open_conns-AllBlocks}

clamps : (clamp_workers 8 4 6 ≡ 4) × (clamp_workers 8 0 6 ≡ 8) × (clamp_workers 2 4 6 ≡ 2)
unfolding clamp_workers
clamps = (refl, refl, refl)

-- Block 3 of an object of ten bytes wraps to 9 % 8.
starts :
    (block_start 10 3 2 ≡ 6)
    × (block_start 10 3 3 ≡ 1)
    × (block_end 3 6 ≡ 8)
    × (block_start 10 10 5 ≡ 0)
unfolding block_start block_end
starts = (refl, refl, refl, refl)

blocks-apart_example : block_end 3 (block_start 10 3 1) < block_start 10 3 2
blocks-apart_example = blocks-apart 10 3 1 2 (omega arith) (omega arith) (omega arith) (omega arith)

-- Two connections of four bytes each, to an object of ten.
abbrev env : Env
env = record {
  workers = none;
  conns = some (b'2' ∷ []);
  bucket_size = some (b'1' ∷ b'0' ∷ []);
  block_size = some (b'4' ∷ []);
  scheme = none;
  tls_stub = none;
  target_ip = none;
}

object_size-env : object_size env ≡ 10
unfolding object_size parse_size parse_size_from suffix_mult
object_size-env = refl

block_size-env : block_size env ≡ 4
unfolding block_size parse_size parse_size_from suffix_mult
block_size-env = refl

abbrev accepts : ℕ → Bool
accepts i = true

open_conns-AllBlocks_example :
    BlocksIf env (b'h' ∷ []) (open_conns env (b'h' ∷ []) accepts accepts 6 (49152 ∷ 49154 ∷ []) 0)
open_conns-AllBlocks_example =
    open_conns-AllBlocks env (b'h' ∷ []) 6 (49152 ∷ 49154 ∷ []) (omega (arith, object_size-env))
      (omega (arith, block_size-env)) (omega (arith, object_size-env, block_size-env)) accepts
      accepts 0
