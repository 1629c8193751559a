-- ===== src/Rs232/Words.antt =====
-- rs232_2400_protocol.c: the parsers of responses that are a run of digits, flags or code bytes.
use es_inverter.Base.{
  ℕ, zero, suc, ◌-◌, ◌*◌, not, ◌&&◌, ◌||◌, [], ◌∷◌, Bytes, bit_or, ltb, ◌==◌, if◌then◌else◌, ℤ, pos,
  negsuc, ◌+ℤ◌, ◌*ℤ◌, sub_ℕ, to_word, replicate, u32, u64,
}
use es_inverter.Rs232.Memory.{
  done, fault, ◌>>=◌, bytes_at, c_string, atoi, int_result, write_over, store_at,
}
use es_inverter.Rs232.Parsers.{Parsed}

-- A character other than '0' and '1' is only logged.
unfoldable pub warning_loop : ℕ → Bytes → ℕ → Parsed ℕ
warning_loop zero mem flags = done (pos 0, flags)
warning_loop (suc n) [] flags = fault
warning_loop (suc n) (b ∷ mem) flags =
    warning_loop n mem (u64 ((if b == b'1' then bit_or flags 0x1 else flags) * 2))

unfoldable pub parse_rsp_qpiws : Bytes → ℕ → ℕ → Parsed ℕ
unfolding warning_loop
parse_rsp_qpiws mem len warning_flags =
    let bounded : ℕ = if ltb 64 len then 64 else len in warning_loop bounded mem 0

unfoldable pub fault_loop : ℕ → Bytes → ℕ → Parsed ℕ
fault_loop zero mem code = done (pos 0, code)
fault_loop (suc n) [] code = fault
fault_loop (suc n) (b ∷ mem) code = fault_loop n mem (u32 (bit_or code b * 256))

unfoldable pub parse_rsp_qpicf : Bytes → ℕ → ℕ → Parsed ℕ
unfolding fault_loop
parse_rsp_qpicf mem len code =
    if not (len == 4) then done (negsuc 0, code) else fault_loop len mem 0

-- `strdec2int`: the loop over the first n characters.
unfoldable pub dec_loop : ℕ → Bytes → ℤ → Parsed ℤ
dec_loop zero text out = done (pos 0, out)
dec_loop (suc n) [] out = fault
dec_loop (suc n) (b ∷ text) out =
    if (ltb b b'0' || ltb b'9' b) && not (b == b'-') then done (negsuc 0, out) else do
      scaled ← int_result (out *ℤ pos 10)
      sum ← int_result (scaled +ℤ sub_ℕ b b'0')
      dec_loop n text sum

unfoldable pub strdec2int : Bytes → ℕ → Parsed ℤ
unfolding dec_loop
strdec2int text str_len = dec_loop str_len text (pos 0)

unfoldable pub parse_rsp_qopmp : Bytes → ℕ → ℤ → Parsed ℤ
unfolding strdec2int
parse_rsp_qopmp mem len max_output_power =
    if ltb len 5 then done (negsuc 0, max_output_power) else strdec2int mem len

-- All but the last character go to an array of three bytes.
unfoldable pub parse_rsp_qlst : Bytes → ℕ → ℕ → Parsed ℕ
unfolding c_string atoi
parse_rsp_qlst mem len sleep_time =
    if ltb len 2 then done (negsuc 0, sleep_time) else if ltb 3 (len - 1) then fault else do
      text ← bytes_at mem 0 (len - 1)
      s ← c_string (write_over text (replicate 3 0))
      done (pos 0, to_word 4294967296 (atoi s))

-- The text goes to an array of `len` bytes, and a NUL behind it.
unfoldable pub parse_rsp_qpihf : Bytes → ℕ → ℕ → Parsed ℕ
parse_rsp_qpihf mem len model = do
  text ← bytes_at mem 0 len
  temp ← store_at (write_over text (replicate len 0)) len 0
  done (negsuc 0, model)
