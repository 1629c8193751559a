-- ===== src/Rs232/Frame/Faults.antt =====
-- rs232_2400_protocol.c: the arrays of the parsers of QPIHF, QLST and QPI, and their bounds.
use es_inverter.Base.{
  ℕ, ◌≤◌, ◌<◌, ◌≡◌, ◌≢◌, ◌∷◌, arith, Bytes, length, take, drop, replicate, length-append,
  length-drop, length-take, length-replicate, some,
}
use es_inverter.Rs232.Command.{qpihf, qlst, qpi}
use es_inverter.Rs232.Packet.{Output, parse_packet}
use es_inverter.Rs232.Memory.{fault}
use es_inverter.Rs232.Parsers.{parse_rsp_qpi}
use es_inverter.Rs232.Scanf.{Scanf}
use es_inverter.Rs232.Words.{parse_rsp_qpihf, parse_rsp_qlst}

qpihf_faults : (mem : Bytes) (len v : ℕ) → parse_rsp_qpihf mem len v ≡ fault
unfolding parse_rsp_qpihf
qpihf_faults mem len v =
    let text : Bytes = take len mem in
    let zeros : Bytes = replicate len 0 in
    ground (
      arith,
      length-append text (drop (length text) zeros),
      length-drop (length text) zeros,
      length-take len mem,
      length-replicate {A = ℕ} len 0,
    )

qlst_faults : (mem : Bytes) (len v : ℕ) → 4 < len → parse_rsp_qlst mem len v ≡ fault
unfolding parse_rsp_qlst
qlst_faults mem len v h = ground arith

qpi_faults :
    (a b : ℕ) (rest : Bytes) (len v : ℕ)
    → 4 ≤ len
    → a ≢ 0
    → b ≢ 0
    → parse_rsp_qpi (b'P' ∷ b'I' ∷ a ∷ b ∷ rest) len v ≡ fault
unfolding parse_rsp_qpi
qpi_faults a b rest len v h ha hb = ground arith

module _ (libc : Scanf) where
  open libc use {Float}

  -- With every packet of more than four bytes the parsers of three requests break the bounds of an
  -- array: QPIHF writes a NUL behind its end, QLST writes more than its three bytes, and QPI, if the
  -- packet starts with "PI" and two bytes other than NUL, reads a string with no end.
  pub parse_packet_faults :
      (mem : Bytes) (len a b : ℕ) (o : Output Float)
      → 4 < len
      → a ≢ 0
      → b ≢ 0
      → (parse_packet libc (some qpihf) mem len o ≡ fault)
        × (parse_packet libc (some qlst) mem len o ≡ fault)
        × (parse_packet libc (some qpi) (b'P' ∷ b'I' ∷ a ∷ b ∷ mem) len o ≡ fault)
  unfolding parse_packet
  parse_packet_faults mem len a b o h ha hb = (
    ground (arith, qpihf_faults mem len o.number),
    ground (arith, qlst_faults mem len o.number h),
    ground (arith, qpi_faults a b mem len o.number (omega arith) ha hb),
  )
