-- ===== src/Update/Refused.antt =====
-- update.c: what `update_start` leaves behind, whatever it is called with.
use es_inverter.Base.{
  ℕ, ◌<◌, ◌≤◌, ◌≡◌, ◌≢◌, ◌⊎◌, inl, inr, arith, Bool, true, false, Option, none, some, [], ◌∷◌, ◌++◌,
  Bytes, take, drop, replicate, ◌==◌, ltb, if◌then◌else◌, Bool-cases,
}
use es_inverter.Rs232.Memory.{done, Outcome-cases, bytes_at}
use es_inverter.Update.State.{
  UpdateState, Device, update_numeric_fw_ver, update_start, set_new_fw_url, error_none,
  error_sw_fault, error_invalid_dev_type, error_invalid_hw_ver, error_already_installed,
  error_invalid_url, image_url_max_len,
}
use es_inverter.Update.Version.{get_fw_version_string}

-- A URL that is there, starts with '/', and has 1 to 128 bytes.
abbrev pub IsPath : Option Bytes → ℕ → Type 0
IsPath none len = ⊥
IsPath (some []) len = ⊥
IsPath (some (b ∷ rest)) len = (b ≡ b'/') × (0 < len) × (len ≤ 128)

-- The array of the URL's bytes and then zeros.
abbrev pub array_of : Option Bytes → ℕ → Bytes
array_of none len = replicate 128 0
array_of (some url) len = take len url ++ drop len (replicate 128 0)

-- The URL is refused and nothing changed, or it is a path and stored.
abbrev UrlTaken : Option Bytes → ℕ → UpdateState → Bool → UpdateState → Type 0
UrlTaken url len s valid t =
    ((valid ≡ false) × (t ≡ s) × (¬ IsPath url len))
    ⊎ ((valid ≡ true) × (t ≡ record s { new_fw_image_url = array_of url len }) × IsPath url len)

set_new_fw_url_lem :
    (url : Option Bytes) (len : ℕ) (s : UpdateState) {valid : Bool} {t : UpdateState}
    → set_new_fw_url url len s ≡ done (valid, t)
    → UrlTaken url len s valid t
unfolding set_new_fw_url
set_new_fw_url_lem none len s e = inl (ground arith, ground arith, λ h. h)
set_new_fw_url_lem (some []) len s e = elim (Bool-cases (len == 0)) [
  | inl empty ↦ inl (ground arith, ground arith, λ h. h)
  | inr filled ↦ absurd (ground arith)
]
set_new_fw_url_lem (some (b ∷ rest)) len s e = elim (Bool-cases (len == 0)) [
  | inl empty ↦ inl (ground arith, ground arith, λ h. ground arith)
  | inr filled ↦ elim (Bool-cases (b == b'/')) [
    | inr other ↦ inl (ground arith, ground arith, λ h. ground arith)
    | inl slash ↦ elim (Bool-cases (ltb image_url_max_len len)) [
      | inl long ↦ inl (ground arith, ground arith, λ h. ground arith)
      | inr short ↦ elim (Outcome-cases (bytes_at (b ∷ rest) 0 len)) [
        | inl f ↦ absurd (ground arith)
        | inr (bytes, q) ↦
            inr (ground arith, ground arith, (ground arith, ground arith, ground arith))
      ]
    ]
  ]
]

-- A refusal with a code: the state differs in the error only.
abbrev pub IsRefused : UpdateState → ℕ → ℕ → UpdateState → Type 0
IsRefused s code r after = (r ≡ code) × (after ≡ record s { error = code })

-- The version is another than the one that runs.
abbrev pub IsNew : Device → ℕ → Type 0
IsNew dev fw_ver =
    (installed : ℕ) × (update_numeric_fw_ver dev none ≡ done installed) × (fw_ver ≢ installed)

-- A request handed to the download, whose answer is the code.
abbrev pub IsSubmitted :
    (Bytes → ℕ) → ℕ → Option Bytes → ℕ → ℕ → UpdateState → ℕ → UpdateState → Type 0
IsSubmitted start fw_ver url len policy s r after =
    (r ≡ (if start (array_of url len) == 0 then error_none else error_sw_fault))
    × (after ≡ record s {
      new_fw_image_url = array_of url len;
      new_fw_ver = fw_ver;
      policy = policy;
      error = r;
    })

-- Whatever a request holds, a call that returns has taken one of five ways. A request for another
-- type of device, for other hardware, for the version that runs, or with a URL that is no path of 1
-- to 128 bytes, is refused with the code of the first of these, and nothing but the error changes.
-- Any other request is handed to the download with its URL; the code is the download's answer, and
-- the URL, the version and the policy are kept.
pub update_start_lem :
    (dev : Device) (start : Bytes → ℕ) (dev_type new_fw_ver hw_ver : ℕ) (url : Option Bytes)
    (len policy : ℕ) (s : UpdateState) {r : ℕ} {after : UpdateState}
    → update_start dev start dev_type new_fw_ver hw_ver url len policy s ≡ done (r, after)
    → ((dev_type ≢ dev.dev_type) × IsRefused s error_invalid_dev_type r after)
      ⊎ ((dev_type ≡ dev.dev_type)
          × (hw_ver ≢ dev.hw_ver)
          × IsRefused s error_invalid_hw_ver r after)
      ⊎ ((dev_type ≡ dev.dev_type)
          × (hw_ver ≡ dev.hw_ver)
          × (update_numeric_fw_ver dev none ≡ done new_fw_ver)
          × IsRefused s error_already_installed r after)
      ⊎ ((dev_type ≡ dev.dev_type)
          × (hw_ver ≡ dev.hw_ver)
          × IsNew dev new_fw_ver
          × (¬ IsPath url len)
          × IsRefused s error_invalid_url r after)
      ⊎ ((dev_type ≡ dev.dev_type)
          × (hw_ver ≡ dev.hw_ver)
          × IsNew dev new_fw_ver
          × IsPath url len
          × IsSubmitted start new_fw_ver url len policy s r after)
unfolding update_start
update_start_lem dev start dev_type new_fw_ver hw_ver url len policy s {r} {after} e =
    elim (Bool-cases (dev_type == dev.dev_type)) [
      | inr other ↦ inl (ground arith, (ground arith, ground arith))
      | inl type_ok ↦ elim (Bool-cases (hw_ver == dev.hw_ver)) [
        | inr other ↦ inr (inl (ground arith, ground arith, (ground arith, ground arith)))
        | inl hw_ok ↦ elim (Outcome-cases (get_fw_version_string dev.version)) [
          | inl f ↦ absurd (ground arith)
          | inr (installed, v) ↦ elim (Bool-cases (new_fw_ver == installed)) [
            | inl same ↦
                inr (
                  inr
                    (inl (ground arith, ground arith, ground arith, (ground arith, ground arith))))
            | inr newer ↦
                let new : IsNew dev new_fw_ver = (installed, v, ground arith) in
                elim (Outcome-cases (set_new_fw_url url len s)) [
                  | inl f ↦ absurd (ground arith)
                  | inr ((valid, t), p) ↦ elim (set_new_fw_url_lem url len s p) [
                    | inl (bad, kept, none_taken) ↦ inr (
                        inr (
                          inr (
                            inl (
                              ground arith,
                              ground arith,
                              new,
                              none_taken,
                              (ground arith, ground arith),
                            ))))
                    | inr (good, stored, path) ↦ inr (
                        inr (
                          inr (
                            inr (
                              ground arith,
                              ground arith,
                              new,
                              path,
                              (ground arith, ground arith),
                            ))))
                  ]
                ]
          ]
        ]
      ]
    ]
