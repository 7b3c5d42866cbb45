-- ===== src/RadioControl.antt =====
-- c/src/radio_control.c: the interval that the producer reads and a client sets. Each body is what
-- one thread does while it holds the mutex.
use pub_sub_crawl.Base.{ℕ, Bool, not, Option, none, some, ◌==◌, if◌then◌else◌}

-- `struct radio_control`; a `uint32_t`.
pub record RadioControl : Type 0 where
  pub interval_ms : ℕ

abbrev pub default_interval_ms : ℕ
default_interval_ms = 1000

-- `radio_control_create`, by what `malloc` and `pthread_mutex_init` answer.
unfoldable pub create : Bool → Bool → ℕ → Option RadioControl
create malloc_ok mutex_ok initial_interval_ms =
    if not malloc_ok
    then none
    else if not mutex_ok
    then none
    else some (record {
      interval_ms = if initial_interval_ms == 0 then default_interval_ms else initial_interval_ms;
    })

unfoldable pub get_interval_ms : RadioControl → ℕ
get_interval_ms control = control.interval_ms

unfoldable pub set_interval_ms : RadioControl → ℕ → RadioControl
set_interval_ms control interval_ms =
    if interval_ms == 0 then control else record control { interval_ms = interval_ms }
