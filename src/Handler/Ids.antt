-- ===== src/Handler/Ids.antt =====
-- lafere/src/handler/handler.rs: `HandlerState`, which numbers the requests of one side.
use lafere.Base.{ℕ, ◌+◌, Bool, true, false, Option, none, some, ltb, leb, if◌then◌else◌}

abbrev pub u32_max : ℕ
u32_max = 4294967295

-- The highest id of a client, inclusive: `u32::MAX / 2`.
abbrev pub u32_mid : ℕ
u32_mid = 2147483647

pub data HandlerState : Type 0 where
  uni_server : HandlerState
  uni_client bi_server bi_client : Option ℕ → HandlerState

-- `counter.and_then(|c| c.checked_add(1))`
unfoldable pub checked_next : Option ℕ → Option ℕ
checked_next none = none
checked_next (some c) = if ltb c u32_max then some (c + 1) else none

unfoldable pub next_in_lower_half : Option ℕ → Option ℕ
next_in_lower_half none = none
next_in_lower_half (some c) = if ltb c u32_mid then some (c + 1) else none

-- The id and the new state. The outer `none` is the panic on a `UniServer`.
unfoldable pub next_id : HandlerState → Option (Option ℕ × HandlerState)
unfolding checked_next next_in_lower_half
next_id uni_server = none
next_id (uni_client counter) = some (counter, uni_client (checked_next counter))
next_id (bi_server counter) = some (counter, bi_server (checked_next counter))
next_id (bi_client counter) = some (counter, bi_client (next_in_lower_half counter))

unfoldable pub can_receive_requests : HandlerState → Bool
can_receive_requests (uni_client counter) = false
can_receive_requests _ = true

unfoldable pub can_send_requests : HandlerState → Bool
can_send_requests uni_server = false
can_send_requests _ = true

unfoldable pub reset : HandlerState → HandlerState
reset uni_server = uni_server
reset (uni_client counter) = uni_client (some 0)
reset (bi_server counter) = bi_server (some (u32_mid + 1))
reset (bi_client counter) = bi_client (some 0)

-- The new state, and whether it was changed.
unfoldable pub enable_server_requests : HandlerState → HandlerState × Bool
enable_server_requests uni_server = (bi_server (some (u32_mid + 1)), true)
enable_server_requests (uni_client (some id)) =
    if leb id u32_mid then (bi_client (some id), true) else (bi_client none, true)
enable_server_requests (uni_client none) = (bi_client none, true)
enable_server_requests (bi_server counter) = (bi_server counter, false)
enable_server_requests (bi_client counter) = (bi_client counter, false)
