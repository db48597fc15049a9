-- ===== src/Alloc/Tests.antt =====
-- Blocks of an allocator that places each size at an address of its own.
use miniosv_apps.Prelude.{◌*◌, ◌≡◌, refl, arith}
use miniosv_apps.Alloc.Store.{
  Memory, store_byte, store_bytes, load_bytes, load_ptr, store_ptr, le_bytes, of_le_bytes,
}
use miniosv_apps.Alloc.{Layout, Shim, align_up, alloc, dealloc}
use miniosv_apps.Alloc.Placed.{IsLayout, asked, Granted, alloc-Granted}
use miniosv_apps.Alloc.Moved.{Moved}

abbrev empty : Memory
empty = λ q. 0

-- `free` leaves a mark at the address that it is given.
abbrev shim : Shim
shim = record {
  malloc = λ m n. (4096 * n, m);
  free = λ m p. store_byte m p 77;
  realloc = λ m p n. (p, m);
}

abbrev layout : Layout
layout = record { size = 64; align = 64 }

abbrev small : Layout
small = record { size = 24; align = 8 }

-- malloc is asked for 136 bytes, and its pointer is kept at 557112.
places : (alloc shim layout empty).0 ≡ 557120
unfolding alloc align_up
places = refl

leads_back : load_ptr (alloc shim layout empty).1 557112 ≡ 557056
unfolding alloc align_up load_ptr store_ptr store_bytes load_bytes le_bytes of_le_bytes
leads_back = refl

frees : (dealloc shim 557120 layout (alloc shim layout empty).1) 557056 ≡ 77
unfolding dealloc alloc align_up load_ptr store_ptr store_bytes load_bytes le_bytes of_le_bytes
frees = refl

places_small : (alloc shim small empty).0 ≡ 98304
unfolding alloc
places_small = refl

layout-IsLayout : IsLayout layout
layout-IsLayout = (6, refl, omega arith)

alloc-Granted_example :
    Granted shim layout (shim.malloc empty (asked layout)) (alloc shim layout empty)
alloc-Granted_example = alloc-Granted shim layout empty layout-IsLayout (omega arith)
