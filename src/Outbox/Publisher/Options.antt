-- ===== src/Outbox/Publisher/Options.antt =====
-- `normalizePublisherOptions` of internal/outbox/publisher.go.
use proto_radar.Prelude.{◌≡◌, false, arith}
use proto_radar.Prelude.Int.{nonpos, ltb_ℤ}
use proto_radar.Outbox.Publisher.{PublisherOptions, normalize_publisher_options}

-- What the publisher relies on: every count and duration is positive, and the longest backoff is not
-- below the first.
pub record IsUsable (options : PublisherOptions) : Type 0 where
  pub batch : nonpos options.batch_size ≡ false
  pub poll : nonpos options.poll_interval ≡ false
  pub lease : nonpos options.lease_duration ≡ false
  pub attempts : nonpos options.max_attempts ≡ false
  pub first_backoff : nonpos options.initial_retry_backoff ≡ false
  pub longest_backoff : nonpos options.max_retry_backoff ≡ false
  pub message : nonpos options.error_message_max_length ≡ false
  pub ordered : ltb_ℤ options.max_retry_backoff options.initial_retry_backoff ≡ false

-- The normalised options are usable, whatever was configured.
pub normalize_publisher_options-IsUsable :
    (options : PublisherOptions) → IsUsable (normalize_publisher_options options)
unfolding normalize_publisher_options
normalize_publisher_options-IsUsable options = ground arith

-- Usable options are left as they are.
pub normalize_publisher_options_usable :
    (options : PublisherOptions) → IsUsable options → normalize_publisher_options options ≡ options
unfolding normalize_publisher_options
normalize_publisher_options_usable options h = ground arith
