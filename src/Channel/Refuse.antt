-- ===== src/Channel/Refuse.antt =====
-- The sends that put nothing in the queue: the empty message, and the full channel.
use snakefish.Prelude.{
  ◌==◌, if◌then◌else◌, length, overflow_error, ok, err, ℕ, ◌+◌, ◌-◌, ◌^◌, ◌<◌, ◌≡◌, List, arith,
}
use snakefish.Channel.{Channel, send_bytes}
use snakefish.Channel.Queue.{Holds, available_space_locked}

-- Where the frame does not fit, the send raises and leaves the channel as it was. Sending no bytes does
-- nothing at all.
pub send_bytes-full :
    (ch : Channel) (ms : List (List ℕ)) (free source : List ℕ) (len : ℕ)
    → Holds ch ms free
    → len < 2 ^ 63
    → length free < 8 + len
    → send_bytes source len ch ≡ ((if len == 0 then ok tt else err overflow_error), ch)
unfolding send_bytes
send_bytes-full ch ms free source len h small over =
    ground (arith, h.unlocked, available_space_locked ch ms free h (ch.lock - 1))
