-- ===== src/Update/Buffer.antt =====
-- update.c: the array of the URL, of IMAGE_URL_MAX_LEN bytes.
use es_inverter.Base.{
  ℕ, ◌+◌, ◌≤◌, ◌≡◌, inl, inr, arith, Bool, Option, none, some, Bytes, ◌++◌, ltb, leb, Bool-cases,
  length, take, drop, replicate, length-append, length-take, length-drop, length-replicate,
}
use es_inverter.Rs232.Memory.{done, Outcome-cases, byte_at, bytes_at}
use es_inverter.Update.State.{UpdateState, Device, update_start, set_new_fw_url, image_url_max_len}

bytes_at-length :
    (mem : Bytes) (i n : ℕ) {out : Bytes} → bytes_at mem i n ≡ done out → length out ≡ n
bytes_at-length mem i n {out} e = elim (Bool-cases (leb (i + n) (length mem))) [
  | inr past ↦ absurd (ground arith)
  | inl inside ↦
      let fits : i + n ≤ length mem = ground arith in
      let same : out ≡ take n (drop i mem) = ground arith in
      rw same (omega (arith, length-take n (drop i mem), length-drop i mem, fits))
]

filled_array :
    (url : Bytes) (n : ℕ)
    → length url ≡ n
    → n ≤ 128
    → length (url ++ drop n (replicate 128 0)) ≡ 128
filled_array url n e h =
    let zeros : Bytes = replicate 128 0 in
    omega
      (arith, length-append url (drop n zeros), length-drop n zeros, length-replicate {A = ℕ} 128 0)

set_new_fw_url-length :
    (url : Option Bytes) (len : ℕ) (s : UpdateState) {valid : Bool} {t : UpdateState}
    → length s.new_fw_image_url ≡ 128
    → set_new_fw_url url len s ≡ done (valid, t)
    → length t.new_fw_image_url ≡ 128
unfolding set_new_fw_url
set_new_fw_url-length none len s {valid} {t} h e = let same : t ≡ s = ground arith in rw same h
set_new_fw_url-length (some url) len s {valid} {t} h e = elim (Outcome-cases (bytes_at url 0 len)) [
  | inl f ↦ let same : t ≡ s = ground arith in rw same h
  | inr (out, q) ↦ elim (Bool-cases (ltb image_url_max_len len)) [
    | inl long ↦ let same : t ≡ s = ground arith in rw same h
    | inr short ↦
        let size : length (out ++ drop len (replicate 128 0)) ≡ 128 =
          filled_array out len (bytes_at-length url 0 len {out = out} q) (ground arith) in
        elim (Outcome-cases (byte_at url 0)) [
          | inl f ↦ let same : t ≡ s = ground arith in rw same h
          | inr (b, p) ↦ ground (arith, size, h)
        ]
  ]
]

-- A call that returns leaves the array as long as it was.
pub update_start-length :
    (dev : Device) (start : Bytes → ℕ) (dev_type new_fw_ver hw_ver : ℕ) (url : Option Bytes)
    (len policy : ℕ) (s : UpdateState) {r : ℕ} {after : UpdateState}
    → length s.new_fw_image_url ≡ 128
    → update_start dev start dev_type new_fw_ver hw_ver url len policy s ≡ done (r, after)
    → length after.new_fw_image_url ≡ 128
unfolding update_start
update_start-length dev start dev_type new_fw_ver hw_ver url len policy s {r} {after} h e =
    elim (Outcome-cases (set_new_fw_url url len s)) [
      | inl f ↦ let same : after.new_fw_image_url ≡ s.new_fw_image_url = ground arith in rw same h
      | inr ((valid, t), p) ↦
          let size : length t.new_fw_image_url ≡ 128 =
            set_new_fw_url-length url len s {valid = valid} {t = t} h p in
          ground (arith, size, h)
    ]
