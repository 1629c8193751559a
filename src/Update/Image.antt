-- ===== src/Update/Image.antt =====
-- update.c: which updates `update_start` takes, and the URL that it keeps.
use mathlib.Core.List.{append-nil}
use es_inverter.Base.{
  ℕ, zero, suc, ◌-◌, ◌<◌, ◌≡◌, ◌≢◌, refl, ap, ◌∙◌, inl, inr, arith, true, false, List, [], ◌∷◌,
  ◌++◌, some, Bytes, All, length, take, drop, replicate, if◌then◌else◌, ◌==◌, ltb, Bool-cases,
  length-append,
}
use es_inverter.Rs232.Memory.{done, fault, c_string, bytes_at}
use es_inverter.Update.State.{
  UpdateState, Device, image_url_max_len, update_start, update_fw_url, set_new_fw_url,
}
use es_inverter.Update.Version.{get_fw_version_string}

take-append {ℓ} : {A : Type ℓ} (xs ys : List A) → take (length xs) (xs ++ ys) ≡ xs
take-append [] ys = refl
take-append (x ∷ xs) ys = ap (◌∷◌ x) (take-append xs ys)

-- A text of bytes other than NUL, and a NUL behind it, is a string.
c_string-append :
    (text rest : Bytes) → All (λ b. b ≢ 0) text → c_string (text ++ 0 ∷ rest) ≡ done text
unfolding c_string
c_string-append [] rest h = refl
c_string-append (b ∷ text) rest h =
    let e : (b == 0) ≡ false = ground (arith, h.0) in rw (e, c_string-append text rest h.1) refl

c_string-endless : (text : Bytes) → All (λ b. b ≢ 0) text → c_string text ≡ fault
unfolding c_string
c_string-endless [] h = refl
c_string-endless (b ∷ text) h =
    let e : (b == 0) ≡ false = ground (arith, h.0) in rw (e, c_string-endless text h.1) refl

drop-replicate {ℓ} : {A : Type ℓ} (k n : ℕ) (a : A) → drop k (replicate n a) ≡ replicate (n - k) a
drop-replicate zero n a = ap (λ (t : ℕ). replicate t a) (omega arith)
drop-replicate (suc k) zero a = let none_left : 0 - suc k ≡ 0 = omega arith in rw none_left refl
drop-replicate (suc k) (suc n) a =
    drop-replicate k n a ∙ ap (λ (t : ℕ). replicate t a) (omega arith)

-- The array once the URL is copied.
abbrev url_array : Bytes → Bytes
url_array url = url ++ replicate (image_url_max_len - length url) 0

bytes_at-append : (xs ys : Bytes) → bytes_at (xs ++ ys) 0 (length xs) ≡ done xs
bytes_at-append xs ys = ground (arith, length-append xs ys, take-append xs ys)

url_taken :
    (path behind : Bytes) (s : UpdateState)
    → length path < 128
    → set_new_fw_url (some ((b'/' ∷ path) ++ behind)) (suc (length path)) s
      ≡ done (true, record s { new_fw_image_url = url_array (b'/' ∷ path) })
unfolding set_new_fw_url
url_taken path behind s h =
    let url : Bytes = b'/' ∷ path in
    let rest : drop (length url) (replicate {A = ℕ} 128 0)
        ≡ replicate {A = ℕ} (128 - length url) 0 =
      drop-replicate {A = ℕ} (length url) 128 0 in
    ground (arith, bytes_at-append url behind, ap (λ (t : Bytes). url ++ t) rest)

started :
    (dev : Device) (start : Bytes → ℕ) (new_fw_ver policy installed : ℕ) (path behind : Bytes)
    (s : UpdateState)
    → get_fw_version_string dev.version ≡ done installed
    → new_fw_ver ≢ installed
    → length path < 128
    → start (url_array (b'/' ∷ path)) ≡ 0
    → update_start dev start dev.dev_type new_fw_ver dev.hw_ver
        (some ((b'/' ∷ path) ++ behind))
        (suc (length path))
        policy
        s
      ≡ done (
        0,
        record s {
          new_fw_image_url = url_array (b'/' ∷ path);
          new_fw_ver = new_fw_ver;
          policy = policy;
          error = 0;
        },
      )
unfolding update_start
started dev start new_fw_ver policy installed path behind s v ne small ok =
    let t : (dev.dev_type == dev.dev_type) ≡ true = ground arith in
    let w : (dev.hw_ver == dev.hw_ver) ≡ true = ground arith in
    let n : (new_fw_ver == installed) ≡ false = ground arith in
    rw (t, w, v, n, url_taken path behind s small, ok) refl

-- An update for this device and hardware, of another version than the installed one, whose URL
-- starts with '/', is at most 128 bytes long and has no NUL, and whose download starts, is taken: 0 is
-- returned, the phase is kept, and the URL and the version are what `update_fw_url` then finds, if
-- the URL is shorter than 128 bytes. One of 128 bytes leaves no room for the NUL, and
-- `update_fw_url` reads on behind the array.
pub update_fw_url-update_start :
    (dev : Device) (start : Bytes → ℕ) (new_fw_ver policy installed : ℕ) (path behind : Bytes)
    (s : UpdateState)
    → get_fw_version_string dev.version ≡ done installed
    → new_fw_ver ≢ installed
    → length path < 128
    → All (λ b. b ≢ 0) path
    → ((array : Bytes) → start array ≡ 0)
    → (after : UpdateState) × (update_start dev start dev.dev_type new_fw_ver dev.hw_ver
          (some ((b'/' ∷ path) ++ behind))
          (suc (length path))
          policy
          s
        ≡ done (0, after))
      × (after.phase ≡ s.phase)
      × (c_string after.new_fw_image_url
          ≡ (if ltb (length path) 127 then done (b'/' ∷ path) else fault))
      × (update_fw_url after ≡ (
          if ltb (length path) 127 then done (new_fw_ver, some after.new_fw_image_url) else fault))
unfolding update_fw_url
update_fw_url-update_start dev start new_fw_ver policy installed path behind s v ne small no_nul
      ok =
    let url : Bytes = b'/' ∷ path in
    let array : Bytes = url_array url in
    let text : All (λ b. b ≢ 0) url = ((λ e. omega arith), no_nul) in
    let string : c_string array ≡ (if ltb (length path) 127 then done url else fault) =
      elim (Bool-cases (ltb (length path) 127)) [
        | inl room ↦
            let n : image_url_max_len - length url ≡ suc (127 - length url) = ground arith in
            rw (room, n) (c_string-append url _ text)
        | inr full ↦
            let n : image_url_max_len - length url ≡ 0 = ground arith in
            rw (full, n) (ap c_string (append-nil url) ∙ c_string-endless url text)
      ] in
    (
      record s { new_fw_image_url = array; new_fw_ver = new_fw_ver; policy = policy; error = 0 },
      started dev start new_fw_ver policy installed path behind s v ne small (ok array),
      refl,
      string,
      ground (arith, string),
    )
