-- ===== src/Rs232/Parsers.antt =====
-- rs232_2400_protocol.c: the parsers of one response that read its bytes themselves. `mem` is the
-- memory from the first byte of the packet to the end of the buffer, `len` the packet's length. A
-- parser returns its status (0, or a negative number) and what it leaves in the response.
use es_inverter.Base.{
  ℕ, zero, suc, ◌*◌, Bool, true, false, not, ◌&&◌, Option, none, some, [], ◌∷◌, ◌++◌, Bytes, drop,
  bit_or, ltb, ◌==◌, if◌then◌else◌, ℤ, pos, negsuc, to_word, is_zero, replicate, u8, u64,
}
use es_inverter.Rs232.Memory.{
  Outcome, done, fault, ◌>>=◌, byte_at, bytes_at, c_string, printed, strncmp, atoi, strtoull,
  write_over, store_at,
}
use es_inverter.Rs232.Response.{QidResponse, QflagResponse}

-- A parser's status and its response.
abbrev pub Parsed : Type 0 → Type 0
Parsed R = Outcome (ℤ × R)

unfoldable pub parse_rsp_is_nak : Bytes → ℕ → Outcome ℤ
unfolding strncmp
parse_rsp_is_nak mem len =
    if ltb len 3 then done (negsuc 0) else strncmp mem (b'N' ∷ b'A' ∷ b'K' ∷ 0 ∷ []) 3

-- The two digits go to an array of two bytes, which `atoi` reads as a string.
unfoldable pub parse_rsp_qpi : Bytes → ℕ → ℕ → Parsed ℕ
unfolding strncmp c_string atoi
parse_rsp_qpi mem len protocol_id = if ltb len 4 then done (negsuc 0, protocol_id) else do
  c ← strncmp mem (b'P' ∷ b'I' ∷ 0 ∷ []) 2
  if not (is_zero c) then done (negsuc 1, protocol_id) else do
    protocol_id_str ← bytes_at mem 2 2
    s ← c_string protocol_id_str
    let id = to_word 4294967296 (atoi s)
    done (if ltb 99 id then (negsuc 2, id) else (pos 0, id))

unfoldable pub parse_rsp_qid : Bytes → ℕ → QidResponse → Parsed QidResponse
unfolding printed
parse_rsp_qid mem len response = if not (len == 14) then done (negsuc 0, response) else do
  b1 ← byte_at mem 1
  b2 ← byte_at mem 2
  b3 ← byte_at mem 3
  b4 ← byte_at mem 4
  b5 ← byte_at mem 5
  b6 ← byte_at mem 6
  b7 ← byte_at mem 7
  b8 ← byte_at mem 8
  m ← printed 5 (drop 9 mem)
  done (
    pos 0,
    record {
      main_production_type = b1;
      sub_production_type = b2;
      va_type = b3;
      hlv_type = b4;
      year = b5 ∷ b6 ∷ 0 ∷ [];
      month = b7 ∷ b8 ∷ 0 ∷ [];
      manufacturer_id = write_over (m ++ 0 ∷ []) response.manufacturer_id;
    },
  )

-- The five digits of the version stand at 6, its two digits at 12.
unfoldable pub parse_rsp_qvfw : Bytes → ℕ → ℕ → Parsed ℕ
unfolding c_string strtoull
parse_rsp_qvfw mem len fw_ver = if not (len == 14) then done (negsuc 0, 0) else do
  major ← bytes_at mem 6 5
  let version_str = write_over major (replicate 10 0)
  s ← c_string version_str
  let shifted = u64 (strtoull s * 256)
  minor ← bytes_at mem 12 2
  t ← c_string (write_over minor (drop 5 version_str))
  done (pos 0, bit_or shifted (u8 (strtoull t)))

unfoldable pub parse_rsp_qmd : Bytes → ℕ → Bytes → Parsed Bytes
parse_rsp_qmd mem len model = if ltb len 15 then done (negsuc 0, model) else do
  text ← bytes_at mem 1 15
  terminated ← store_at (write_over text model) 15 0
  done (pos 0, terminated)

-- One flag letter: it records the letter's bit in `presence`, and the flag.
unfoldable pub set_flag : ℕ → Bool → QflagResponse → Option QflagResponse
set_flag c enable r =
    if c == b'A'
    then some (record r { silence_buzzer = enable; presence = bit_or r.presence 0x01 })
    else if c == b'B'
    then some (record r { overload_bypass = enable; presence = bit_or r.presence 0x02 })
    else if c == b'J'
    then some (record r { power_saving = enable; presence = bit_or r.presence 0x04 })
    else if c == b'K'
    then some (record r { lcd_default_page_timeout = enable; presence = bit_or r.presence 0x08 })
    else if c == b'U'
    then some (record r { overload_restart = enable; presence = bit_or r.presence 0x10 })
    else if c == b'V'
    then some (record r { over_temperature_restart = enable; presence = bit_or r.presence 0x20 })
    else if c == b'X'
    then some (record r { backlight_on = enable; presence = bit_or r.presence 0x40 })
    else if c == b'Y'
    then some (record r { alarm_on_primary_interrupt = enable; presence = bit_or r.presence 0x80 })
    else if c == b'Z'
    then some (record r { fault_code_record = enable; presence = bit_or r.presence 0x100 })
    else none

-- The loop over the first n bytes, and the test behind it.
unfoldable pub flag_loop : ℕ → Bytes → Bool → QflagResponse → Parsed QflagResponse
flag_loop zero mem enable r = done (if not (r.presence == 0x1FF) then negsuc 3 else pos 0, r)
flag_loop (suc n) [] enable r = fault
flag_loop (suc n) (c ∷ mem) enable r =
    if c == b'E'
    then flag_loop n mem true r
    else if c == b'D'
    then flag_loop n mem false r
    else elim (set_flag c enable r) [
      | none ↦ done (negsuc 2, r)
      | some r' ↦ flag_loop n mem enable r'
    ]

unfoldable pub parse_rsp_qflag : Bytes → ℕ → QflagResponse → Parsed QflagResponse
unfolding flag_loop
parse_rsp_qflag mem len response = if not (len == 11) then done (negsuc 0, response) else do
  first ← byte_at mem 0
  if not (first == b'E') && not (first == b'D')
      then done (negsuc 1, response)
      else flag_loop len mem false response

unfoldable pub parse_rsp_qmod : Bytes → ℕ → ℕ → Parsed ℕ
parse_rsp_qmod mem len mode =
    if not (len == 1) then done (negsuc 0, mode) else do b ← byte_at mem 0; done (pos 0, b)
