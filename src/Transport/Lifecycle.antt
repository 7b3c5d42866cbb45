-- ===== src/Transport/Lifecycle.antt =====
-- `transport_create`: what it holds after each failure.
use pub_sub_crawl.Base.{
  ℕ, ◌≡◌, Bool, true, false, not, ◌&&◌, arith, leb, ltb, if◌then◌else◌, Bytes, length,
}

-- What the calls answer, in their order. `pointers`: no argument is NULL.
pub record Setup : Type 0 where
  pub pointers : Bool
  pub malloc_ok : Bool
  pub socket_ok : Bool
  pub bind_ok : Bool
  pub listen_ok : Bool
  pub thread_ok : Bool

-- What the transport holds: its block, the descriptor, the file that `bind` makes, the thread.
pub record Held : Type 0 where
  pub block : Bool
  pub listen_fd : Bool
  pub socket_file : Bool
  pub thread : Bool

-- Whether the call returns a transport, and what is held afterwards.
pub record Created : Type 0 where
  pub made : Bool
  pub held : Held

abbrev pub nothing_held : Held
nothing_held = record { block = false; listen_fd = false; socket_file = false; thread = false }

-- `sizeof(sun_path)` on Linux.
abbrev pub path_size : ℕ
path_size = 108

abbrev free_block : Held → Held
free_block h = record h { block = false }

abbrev close_fd : Held → Held
close_fd h = record h { listen_fd = false }

abbrev unlink_file : Held → Held
unlink_file h = record h { socket_file = false }

abbrev failure : Held → Created
failure h = record { made = false; held = h }

-- `transport_create`. It unlinks a stale file before `bind`; one that `bind` has not made is not held.
unfoldable pub create : Setup → Bytes → Created
create env socket_path =
    let with_block : Held = record nothing_held { block = true } in
    let with_fd : Held = record with_block { listen_fd = true } in
    let with_file : Held = record with_fd { socket_file = true } in
    if not env.pointers
    then failure nothing_held
    else if not env.malloc_ok
    then failure nothing_held
    else if leb path_size (length socket_path)
    then failure (free_block with_block)
    else if not env.socket_ok
    then failure (free_block with_block)
    else if not env.bind_ok
    then failure (free_block (close_fd with_fd))
    else if not env.listen_ok
    then failure (free_block (unlink_file (close_fd with_file)))
    else if not env.thread_ok
    then failure (free_block (unlink_file (close_fd with_file)))
    else record { made = true; held = record with_file { thread = true } }

-- `transport_destroy` of a transport that was made.
abbrev pub destroy : Held → Held
destroy h = free_block (unlink_file (close_fd (record h { thread = false })))

-- What a call and, where it gave a transport, `transport_destroy` make of the program's resources.
abbrev pub released : Created → Held
released c = if c.made then destroy c.held else c.held

abbrev succeeds : Setup → Bytes → Bool
succeeds env socket_path =
    env.pointers
    && env.malloc_ok
    && ltb (length socket_path) path_size
    && env.socket_ok
    && env.bind_ok
    && env.listen_ok
    && env.thread_ok

-- `transport_create` gives a transport exactly if every call succeeds and the path with its NUL fits
-- the address, and at the end, destroyed or never made, nothing is held.
pub create-released :
    (env : Setup) (socket_path : Bytes)
    → ((create env socket_path).made ≡ succeeds env socket_path)
      × (released (create env socket_path) ≡ nothing_held)
unfolding create
create-released env socket_path = (ground arith, ground arith)
