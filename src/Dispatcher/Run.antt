-- ===== src/Dispatcher/Run.antt =====
-- dispatcher.c: a run of messages, each with what the libraries answer while it is handled.
use es_inverter.Base.{ℕ, List, [], ◌∷◌, Bytes, ℤ}
use es_inverter.Dispatcher.Table.{dispatcher_handler}
use es_inverter.Dispatcher.World.{Payload, Answers, World}
use es_inverter.Rs232.Memory.{Outcome, done, ◌>>=◌}
use es_inverter.Storage.Nvs.{Nvs}
use es_inverter.Update.State.{Device}

pub record Message : Type 0 where
  pub type_of : ℕ
  pub msg : Payload
  pub answers : Answers

module _ (nvs : Nvs) (crc32 : Bytes → ℕ) (dev : Device) (multiplier : ℤ) (divisor : ℕ) where
  open nvs use {Flash}

  abbrev pub run_messages : List Message → World Flash → Outcome (World Flash)
  run_messages [] w = done w
  run_messages (m ∷ rest) w = do
    handled ← dispatcher_handler nvs crc32 dev multiplier divisor m.answers m.type_of m.msg w
    run_messages rest handled.world
