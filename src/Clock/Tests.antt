-- ===== src/Clock/Tests.antt =====
-- Runs of the timestamp format.
use oathcast.Prelude.{◌≡◌, refl, true, false, none, some}
use oathcast.Clock.{iso_utc, format_timestamp}

leap_day : iso_utc 1709210096000000 ≡ "2024-02-29T12:34:56Z"
unfolding iso_utc
leap_day = refl

with_fraction : iso_utc 1785283200000042 ≡ "2026-07-29T00:00:00.000042Z"
unfolding iso_utc
with_fraction = refl

naive_is_refused : format_timestamp (record { micros = 0; aware = false }) ≡ none
unfolding format_timestamp
naive_is_refused = refl

epoch : format_timestamp (record { micros = 0; aware = true }) ≡ some "1970-01-01T00:00:00Z"
unfolding format_timestamp
epoch = refl
