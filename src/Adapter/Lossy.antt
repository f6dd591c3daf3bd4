-- ===== src/Adapter/Lossy.antt =====
-- libsponge/tcp_helpers/lossy_fd_adapter.hh. The adapter below is a section's parameter, given by its
-- `read` and `write`; a number from the random generator is an argument.
use csed.Base.{
  ℕ, ◌%◌, Bool, true, false, not, ◌&&◌, Option, none, ltb, ◌==◌, if◌then◌else◌, u16_mod,
}
use csed.Segment.{TcpSegment}
use csed.Adapter.{FdAdapterConfig}

unfoldable pub should_drop : FdAdapterConfig → Bool → ℕ → Bool
should_drop cfg uplink random =
    let loss = if uplink then cfg.loss_rate_up else cfg.loss_rate_dn in
    not (loss == 0) && ltb (random % u16_mod) loss

module _ {ℓ} {A : Type ℓ} (config : A → FdAdapterConfig) where
  unfoldable pub read : (A → A × Option TcpSegment) → A → ℕ → A × Option TcpSegment
  unfolding should_drop
  read adapter_read a random =
      let (a', ret) = adapter_read a in
      (a', if should_drop (config a') false random then none else ret)

  unfoldable pub write : (A → TcpSegment → A) → A → TcpSegment → ℕ → A
  unfolding should_drop
  write adapter_write a seg random =
      if should_drop (config a) true random then a else adapter_write a seg
