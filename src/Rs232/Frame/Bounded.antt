-- ===== src/Rs232/Frame/Bounded.antt =====
-- The parsers that stay within the buffer, given the NUL that the frame puts behind a packet.
use es_inverter.Base.{
  ℕ, zero, suc, ◌≤◌, ◌≡◌, ◌≢◌, ◌∙◌, inl, inr, Bool, true, false, some, List, [], ◌∷◌, arith, Bytes,
  length, take, drop, get_elem?, replicate, Option-cases, length-take, length-drop, length-append,
}
use es_inverter.Rs232.Memory.{fault, write_over}
use es_inverter.Rs232.Memory.Total.{
  get_elem?-lt, get_elem?-ne-none, get_elem?-drop, c_string-ne-fault, printed-ne-fault,
  strncmp-ne-fault, get_elem?-write_over,
}
use es_inverter.Rs232.Parsers.{
  parse_rsp_is_nak, parse_rsp_qid, parse_rsp_qvfw, parse_rsp_qmd, set_flag, flag_loop,
  parse_rsp_qflag,
}
use es_inverter.Rs232.Response.{QidResponse, QflagResponse}
use es_inverter.Rs232.Scanf.{Scanf, Slot, scan}
use es_inverter.Rs232.Scanned.{scan_all}
use es_inverter.Rs232.Words.{warning_loop, fault_loop}

-- A packet of length len, with the NUL behind it that the frame writes.
abbrev pub EndsAt : Bytes → ℕ → Type 0
EndsAt mem len = get_elem? mem len ≡ some 0

pub nak-ne-fault : (mem : Bytes) (len : ℕ) → EndsAt mem len → parse_rsp_is_nak mem len ≢ fault
unfolding parse_rsp_is_nak
nak-ne-fault mem len nul =
    ground (arith, get_elem?-lt mem len nul, strncmp-ne-fault mem (b'N' ∷ b'A' ∷ b'K' ∷ 0 ∷ []) 3)

pub qid-ne-fault :
    (mem : Bytes) (len : ℕ) (r : QidResponse) → EndsAt mem len → parse_rsp_qid mem len r ≢ fault
unfolding parse_rsp_qid
qid-ne-fault mem len r nul = ground (
  arith,
  get_elem?-lt mem len nul,
  get_elem?-ne-none mem 1,
  get_elem?-ne-none mem 2,
  get_elem?-ne-none mem 3,
  get_elem?-ne-none mem 4,
  get_elem?-ne-none mem 5,
  get_elem?-ne-none mem 6,
  get_elem?-ne-none mem 7,
  get_elem?-ne-none mem 8,
  printed-ne-fault 5 (drop 9 mem) 5,
  get_elem?-drop 9 mem 5,
)

pub qmd-ne-fault :
    (mem : Bytes) (len : ℕ) (model : Bytes)
    → EndsAt mem len
    → 16 ≤ length model
    → parse_rsp_qmd mem len model ≢ fault
unfolding parse_rsp_qmd
qmd-ne-fault mem len model nul room =
    let text : Bytes = take 15 (drop 1 mem) in
    ground (
      arith,
      get_elem?-lt mem len nul,
      length-append text (drop (length text) model),
      length-drop (length text) model,
    )

pub flag_loop-ne-fault :
    (n : ℕ) (mem : Bytes) (enable : Bool) (r : QflagResponse)
    → n ≤ length mem
    → flag_loop n mem enable r ≢ fault
unfolding flag_loop
flag_loop-ne-fault zero mem enable r h = λ f. cc
flag_loop-ne-fault (suc n) [] enable r h = absurd (omega arith)
flag_loop-ne-fault (suc n) (c ∷ mem) enable r h = elim (Option-cases (set_flag c enable r)) [
  | inl unknown ↦ rw unknown (
      ground (
        arith,
        flag_loop-ne-fault n mem true r (omega arith),
        flag_loop-ne-fault n mem false r (omega arith),
      ))
  | inr (r', known) ↦ rw known (
      ground (
        arith,
        flag_loop-ne-fault n mem true r (omega arith),
        flag_loop-ne-fault n mem false r (omega arith),
        flag_loop-ne-fault n mem enable r' (omega arith),
      ))
]

pub qflag-ne-fault :
    (mem : Bytes) (len : ℕ) (r : QflagResponse) → EndsAt mem len → parse_rsp_qflag mem len r ≢ fault
unfolding parse_rsp_qflag
qflag-ne-fault mem len r nul =
    ground
      (arith, get_elem?-lt mem len nul, get_elem?-ne-none mem 0, flag_loop-ne-fault len mem false r)

pub warning_loop-ne-fault :
    (n : ℕ) (mem : Bytes) (w : ℕ) → n ≤ length mem → warning_loop n mem w ≢ fault
unfolding warning_loop
warning_loop-ne-fault zero mem w h = λ f. cc
warning_loop-ne-fault (suc n) [] w h = absurd (omega arith)
warning_loop-ne-fault (suc n) (b ∷ mem) w h = warning_loop-ne-fault n mem _ (omega arith)

pub fault_loop-ne-fault :
    (n : ℕ) (mem : Bytes) (w : ℕ) → n ≤ length mem → fault_loop n mem w ≢ fault
unfolding fault_loop
fault_loop-ne-fault zero mem w h = λ f. cc
fault_loop-ne-fault (suc n) [] w h = absurd (omega arith)
fault_loop-ne-fault (suc n) (b ∷ mem) w h = fault_loop-ne-fault n mem _ (omega arith)

-- The two texts of a version are strings in their array.
pub qvfw-ne-fault : (mem : Bytes) (len v : ℕ) → EndsAt mem len → parse_rsp_qvfw mem len v ≢ fault
unfolding parse_rsp_qvfw
qvfw-ne-fault mem len v nul =
    let major : Bytes = take 5 (drop 6 mem) in
    let minor : Bytes = take 2 (drop 12 mem) in
    let version_str : Bytes = write_over major (replicate 10 0) in
    let l5 : length major ≤ 5 = omega (arith, length-take 5 (drop 6 mem)) in
    let l2 : length minor ≤ 2 = omega (arith, length-take 2 (drop 12 mem)) in
    let end : get_elem? version_str 9 ≡ some 0 =
      get_elem?-write_over major (replicate 10 0) 9 (omega arith) in
    let rest : get_elem? (write_over minor (drop 5 version_str)) 4 ≡ some 0 =
      get_elem?-write_over minor (drop 5 version_str) 4 (omega arith)
      ∙ get_elem?-drop 5 version_str 4
      ∙ end in
    ground (
      arith,
      get_elem?-lt mem len nul,
      c_string-ne-fault version_str 9 end,
      c_string-ne-fault (write_over minor (drop 5 version_str)) 4 rest,
    )

pub scan_all-ne-fault :
    (libc : Scanf) {R : Type 0} (mem : Bytes) (len : ℕ) (slots : List (Slot libc.Float R)) (n : ℕ)
    (r : R)
    → EndsAt mem len
    → scan_all libc mem slots n r ≢ fault
unfolding scan_all scan
scan_all-ne-fault libc mem len slots n r nul = ground (arith, c_string-ne-fault mem len nul)
