-- ===== src/Inverter/Mode.antt =====
-- rs232_2400_protocol.c and msg_handlers.c: the mode, from the bytes of the inverter to the server.
use es_inverter.Base.{
  ℕ, ◌+◌, ◌<◌, ◌≡◌, ◌≢◌, refl, ◌∙◌, ◌⊎◌, inl, inr, arith, Bool, true, false, List, [], ◌∷◌, ◌++◌,
  Bytes, length, some, pos, drop, ◌-◌, ◌/◌, ◌%◌, Bool-cases, ◌==◌,
}
use es_inverter.Inverter.Handlers.{FloatApi, inv_mode_handler}
use es_inverter.Inverter.Meas.{InvStatus, inv_set_mode}
use es_inverter.Inverter.State.{PowerApi, InvState, InvAction, send_inv_status}
use es_inverter.Rs232.Command.{code, of_code, qmod}
use es_inverter.Rs232.Crc.{crc16_xmodem}
use es_inverter.Rs232.Frame.{
  Counters, Parse, no_start, rs232_2400_rsp_parse, rs232_2400_serialize, read_packet, finish,
}
use es_inverter.Rs232.Packet.{Output, parse_packet}
use es_inverter.Rs232.Frame.RoundTrip.{frame, IsClean, rs232_2400_rsp_parse-serialize}
use es_inverter.Rs232.Memory.{done}
use es_inverter.Rs232.Parsers.{parse_rsp_qmod, parse_rsp_is_nak}
use es_inverter.Rs232.Scanf.{Scanf}

module _ (api : PowerApi) (floats : FloatApi) where
  -- The mode is known, and the status is sent just when it or something else of it is new.
  abbrev pub Tells : ℕ → InvState api → List (InvAction api) → InvState api → Type 0
  Tells mode s told next =
      (next.inv_status ≡ record (s.inv_status) { mode = mode; changed = false })
      × (((told ≡ send_inv_status next.inv_status ∷ [])
            × ((s.inv_status.mode ≢ mode) ⊎ (s.inv_status.changed ≡ true)))
          ⊎ ((told ≡ []) × (s.inv_status.mode ≡ mode) × (s.inv_status.changed ≡ false)))

  inv_mode_handler-Tells :
      (mode : ℕ) (s : InvState api)
      → (told : List (InvAction api)) × (next : InvState api) × (inv_mode_handler api floats mode s
          ≡ done (told, next))
        × Tells mode s told next
  unfolding inv_mode_handler inv_set_mode
  inv_mode_handler-Tells mode s =
      let status : InvStatus = record (s.inv_status) { mode = mode; changed = false } in
      let next : InvState api = record s { inv_status = status } in
      elim (Bool-cases (s.inv_status.mode == mode)) [
        | inl same ↦ elim (Bool-cases (s.inv_status.changed)) [
          | inl changed ↦
              (send_inv_status status ∷ [], next, ground arith, (refl, inl (refl, inr changed)))
          | inr quiet ↦ ([], next, ground arith, (refl, inr (refl, ground arith, quiet)))
        ]
        | inr new ↦ (
          send_inv_status status ∷ [],
          next,
          rw new refl,
          (refl, inl (refl, inl (λ e. ground arith))),
        )
      ]

module _ (libc : Scanf) (api : PowerApi) (floats : FloatApi) where
  open libc use {Float}

  mode_read :
      (start stop mode : ℕ) (buffer tail : Bytes) (o : Output Float) (c : Counters)
      → drop (start + 1) buffer ≡ mode ∷ tail
      → stop - start - 3 ≡ 1
      → read_packet libc (code qmod) start stop buffer o c
        ≡ done (finish libc stop buffer o c (some (pos 0, record o { number = mode })))
  unfolding read_packet parse_packet parse_rsp_qmod parse_rsp_is_nak of_code code
  mode_read start stop mode buffer tail o c e n = rw (e, n) refl

  -- A mode in a frame as `rs232_2400_serialize` makes it, among other bytes, where the mode and the
  -- two CRC bytes are neither a CR nor a '(' and what follows holds no '(': asked for QMOD,
  -- `rs232_2400_rsp_parse` consumes the bytes up to the end of the frame and leaves the mode in the
  -- output; given that, `inv_mode_handler` notes the mode and sends the status just when the mode is
  -- new or something else of the status was.
  pub rs232_2400_rsp_parse-inv_mode_handler :
      (malloc : ℕ → Bool) (mode : ℕ) (noise rest : Bytes) (o : Output Float) (c : Counters)
      (s : InvState api) {wire : Bytes}
      → rs232_2400_serialize malloc (b'(' ∷ mode ∷ []) ≡ done wire
      → length noise < no_start
      → IsClean
          (mode ∷ [])
          (crc16_xmodem (b'(' ∷ mode ∷ []) / 256)
          (crc16_xmodem (b'(' ∷ mode ∷ []) % 256)
          rest
      → (p : Parse Float) × (told : List (InvAction api)) × (next : InvState api)
        × (rs232_2400_rsp_parse libc (code qmod) (noise ++ (wire ++ rest)) o c ≡ done p)
        × (p.consumed ≡ length noise + 5)
        × (inv_mode_handler api floats p.output.number s ≡ done (told, next))
        × Tells api floats mode s told next
  unfolding finish
  rs232_2400_rsp_parse-inv_mode_handler malloc mode noise rest o c s {wire} sent small clean =
      let counted : Counters = record c { packet_cnt = c.packet_cnt + 1 } in
      let stop : ℕ = length noise + (length (mode ∷ []) + 3) in
      let (found, place, size) =
        rs232_2400_rsp_parse-serialize libc malloc (code qmod) noise (mode ∷ []) rest o c
          {wire = wire} sent small (omega arith) clean in
      let (told, next, handled, tells) = inv_mode_handler-Tells api floats mode s in
      (
        finish libc stop (noise ++ frame (mode ∷ []) 0 0 rest) o counted
            (some (pos 0, record o { number = mode })),
        told,
        next,
        found ∙ mode_read (length noise) stop mode _ _ o counted place size,
        omega arith,
        handled,
        tells,
      )
