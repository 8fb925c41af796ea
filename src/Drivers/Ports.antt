-- ===== src/Drivers/Ports.antt =====
-- arch/x86/hal.c: inportb, inportw and outportb. Each is one instruction, and what is behind the ports is
-- hardware: a state of its own that every access may change.
use levos.Prelude.{ℕ}

pub record Ports (D : Type 0) : Type 0 where
  pub inportb : ℕ → D → ℕ × D
  pub inportw : ℕ → D → ℕ × D
  pub outportb : ℕ → ℕ → D → D
