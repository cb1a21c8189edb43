-- ===== src/KeepAlive/Polls.antt =====
-- The polls of a keep-alive timer: when requests go out and when the connection is given up.
use nabto_embedded_sdk.Base.{
  ℕ, zero, suc, ◌+◌, ◌^◌, ◌≤◌, ◌<◌, ◌≡◌, false, not, ◌&&◌, arith, ltb, leb, if◌then◌else◌, ◌⊎◌,
}
use nabto_embedded_sdk.KeepAlive.{KeepAlive, Action, do_nothing, send_ka, ka_timeout, should_send}

-- `k` polls that see the same two packet counts.
pub poll_many : ℕ → KeepAlive → ℕ → ℕ → KeepAlive
poll_many zero c recv_count sent_count = c
poll_many (suc k) c recv_count sent_count =
    poll_many k (should_send c recv_count sent_count).0 recv_count sent_count

-- What the poll after `k` polls without progress asks for.
unfoldable pub expected : KeepAlive → ℕ → Action
expected c k =
    if ltb (c.ka_max_retries + c.n) k
    then ka_timeout
    else if not c.is_sending && leb c.n k
    then send_ka
    else do_nothing

-- The counts show no progress: one of them is not above the last that was seen.
abbrev NoProgress : KeepAlive → ℕ → ℕ → Type 0
NoProgress c r s = (r ≤ c.last_recv_count) ⊎ (s ≤ c.last_sent_count)

-- One poll without progress, below the limit.
step_lost :
    (c : KeepAlive) (r s : ℕ)
    → NoProgress c r s
    → c.ka_max_retries + c.n + 1 < 2 ^ 32
    → c.lost_keep_alives ≤ c.ka_max_retries + c.n
    → (should_send c r s).0 ≡ record c { lost_keep_alives = c.lost_keep_alives + 1 }
unfolding should_send
step_lost c r s p small h = ground arith

step_action :
    (c : KeepAlive) (r s : ℕ)
    → NoProgress c r s
    → c.ka_max_retries + c.n + 1 < 2 ^ 32
    → (should_send c r s).1 ≡ expected c c.lost_keep_alives
unfolding should_send expected
step_action c r s p small = ground arith

poll_many_lem :
    (k : ℕ) (c : KeepAlive) (r s : ℕ)
    → NoProgress c r s
    → c.ka_max_retries + c.n + 1 < 2 ^ 32
    → c.lost_keep_alives + k ≤ c.ka_max_retries + c.n + 1
    → poll_many k c r s ≡ record c { lost_keep_alives = c.lost_keep_alives + k }
unfolding poll_many
poll_many_lem zero c r s p small h = ground arith
poll_many_lem (suc k) c r s p small h = rw (step_lost c r s p small (omega arith)) (
    ground
      (arith, poll_many_lem k (record c { lost_keep_alives = c.lost_keep_alives + 1 }) r s p small))

-- From a fresh count, as long as the packet counts show no progress, the poll after `k` polls does
-- nothing while `k < n`, asks for a keep-alive packet (unless one is being sent) while
-- `n ≤ k ≤ max_retries + n`, and reports a timeout at `k = max_retries + n + 1`, not earlier, if
-- `max_retries + n + 1` fits in 32 bits.
pub timeout_exact :
    (c : KeepAlive) (r s k : ℕ)
    → c.lost_keep_alives ≡ 0
    → NoProgress c r s
    → c.ka_max_retries + c.n + 1 < 2 ^ 32
    → k ≤ c.ka_max_retries + c.n + 1
    → (should_send (poll_many k c r s) r s).1 ≡ expected c k
unfolding expected
timeout_exact c r s k fresh p small h = rw (poll_many_lem k c r s p small (omega arith)) (
    ground
      (arith, step_action (record c { lost_keep_alives = c.lost_keep_alives + k }) r s p small))

-- A keep-alive packet is asked for only while no packet is being sent.
send_ka_idle : (c : KeepAlive) (r s : ℕ) → (should_send c r s).1 ≡ send_ka → c.is_sending ≡ false
unfolding should_send
send_ka_idle c r s h = ground arith

-- Where the sum of the settings wraps around, a poll that loses its first packet already times out.
wrapped_limit :
    (c : KeepAlive) (r s : ℕ)
    → c.ka_max_retries + c.n ≡ 2 ^ 32
    → NoProgress c r s
    → 1 ≤ c.lost_keep_alives
    → (should_send c r s).1 ≡ ka_timeout
unfolding should_send
wrapped_limit c r s e p h = ground arith
