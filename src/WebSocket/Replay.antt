-- ===== src/WebSocket/Replay.antt =====
-- When the replay of queued messages ends.
use mathlib.Core.List.{append-nil, append_assoc}
use ara_notification_service.Common.{
  ◌+◌, ◌≤◌, ◌≡◌, arith, List, [], ◌∷◌, ◌++◌, length, length-append, is_empty, leb, if◌then◌else◌,
}
use ara_notification_service.Queue.Models.{StoredMessage}
use ara_notification_service.WebSocket.Message.{ServerMessage, notification}
use ara_notification_service.WebSocket.Session.{channel_buffer_size, fill_buffer}

-- The messages that the client is to get for stored messages.
abbrev pub notifications : List StoredMessage → List ServerMessage
notifications [] = []
notifications (x ∷ xs) = notification x.event ∷ notifications xs

-- The replay ends exactly if the messages fit into the buffer of the channel beside those that are in
-- it; then all of them are in the buffer, oldest first, after the others. If they do not fit, then the
-- buffer is full, and the replay waits for a receiver that is only started after it.
pub fill_buffer_lem :
    (xs : List StoredMessage) (buffer : List ServerMessage)
    → length buffer ≤ channel_buffer_size
    → let (filled, waiting) = fill_buffer xs buffer in
      (is_empty waiting ≡ leb (length buffer + length xs) channel_buffer_size)
      × (if is_empty waiting
          then filled ≡ buffer ++ notifications xs
          else length filled ≡ channel_buffer_size)
unfolding fill_buffer
fill_buffer_lem [] buffer room = ground (arith, append-nil buffer)
fill_buffer_lem (x ∷ xs) buffer room = ground (
  arith,
  fill_buffer_lem xs (buffer ++ notification x.event ∷ []),
  length-append buffer (notification x.event ∷ []),
  append_assoc buffer (notification x.event ∷ []) (notifications xs),
)
