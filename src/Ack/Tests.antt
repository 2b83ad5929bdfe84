-- ===== src/Ack/Tests.antt =====
-- Runs of the acknowledgment backend, and the theorems at concrete inputs.
use ara_notification_service.Common.{
  ◌≡◌, refl, true, false, ◌&&◌, List, [], ◌∷◌, IsUnique, Str, str_key, nat_key, ◌==◌, get, insert,
  keys, Str-discrete, ℕ_discrete,
}
use ara_notification_service.Fixtures.{clock, alice, bob}
use ara_notification_service.Ack.Memory.{
  AckConfig, default_config, MemoryAckBackend, new, track, acknowledge,
}
use ara_notification_service.Ack.Laws.{awaits, AckOutcome, acknowledge_lem, acknowledge-track-track}
use ara_notification_service.Ack.Runs.{
  Call, tracks, acknowledges, run, overwritten, Balances, run-balance,
}

abbrev on : AckConfig
on = record default_config { enabled = true }

abbrev calls : List Call
calls =
    tracks 10 1 alice 100 ∷ tracks 20 2 bob 200 ∷ acknowledges 30 1 bob ∷ acknowledges 35 2 bob ∷ []

abbrev tracked : MemoryAckBackend
tracked = run clock (new on) calls

acknowledge_lem_example :
    AckOutcome clock 50 tracked 1
      (tracked.config.enabled && awaits (get 1 tracked.pending) alice)
      (get 1 tracked.pending)
      (acknowledge clock 50 tracked 1 alice)
acknowledge_lem_example = acknowledge_lem clock 50 tracked 1 alice

run-balance_example :
    Balances tracked (overwritten clock (new on) calls) × IsUnique (keys tracked.pending)
run-balance_example = run-balance clock on calls

acknowledge-track-track_example :
    (acknowledge clock 50 (track 20 (track 10 (new on) 1 alice 100) 1 bob 200) 1 alice).1
    ≡ ((new on).config.enabled && ◌==◌ {K = Str} bob alice)
acknowledge-track-track_example =
    acknowledge-track-track clock 10 20 50 (new on) 1 100 200 alice bob alice

-- Two users were sent the same notification: the first cannot acknowledge it.
overwritten_test :
    (acknowledge clock 50 (track 20 (track 10 (new on) 1 alice 100) 1 bob 200) 1 alice).1 ≡ false
unfolding acknowledge track new get insert Str-discrete ℕ_discrete
overwritten_test = refl
