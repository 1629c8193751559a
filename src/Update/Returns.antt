-- ===== src/Update/Returns.antt =====
-- update.c: when the requests of the server return.
use es_inverter.Base.{
  ℕ, zero, suc, ◌≤◌, ◌≡◌, refl, inl, inr, arith, Bool, false, List, [], ◌∷◌, some, none, Bytes,
  length,
}
use es_inverter.Rs232.Memory.{done, Outcome-cases}
use es_inverter.Update.State.{
  UpdateState, Device, Effect, set_new_fw_url, update_start, update_numeric_fw_ver,
  update_send_installed_fw, send_update_status,
}

-- The URL's length stays within the memory that it points to.
set_new_fw_url_returns :
    (url : Bytes) (len : ℕ) (s : UpdateState)
    → len ≤ length url
    → (valid : Bool) × (t : UpdateState) × (set_new_fw_url (some url) len s ≡ done (valid, t))
unfolding set_new_fw_url
set_new_fw_url_returns url zero s h = (false, s, refl)
set_new_fw_url_returns [] (suc len) s h = absurd (omega arith)
set_new_fw_url_returns (b ∷ url) (suc len) s h =
    elim (Outcome-cases (set_new_fw_url (some (b ∷ url)) (suc len) s)) [
      | inl f ↦ absurd (ground arith)
      | inr ((valid, t), p) ↦ (valid, t, p)
    ]

pub update_start_returns :
    (dev : Device) (start : Bytes → ℕ) (dev_type new_fw_ver hw_ver : ℕ) (url : Bytes)
    (len policy installed : ℕ) (s : UpdateState)
    → len ≤ length url
    → update_numeric_fw_ver dev none ≡ done installed
    → (r : ℕ) × (after : UpdateState) × (update_start dev start dev_type new_fw_ver hw_ver
          (some url)
          len
          policy
          s
        ≡ done (r, after))
unfolding update_start
update_start_returns dev start dev_type new_fw_ver hw_ver url len policy installed s h e =
    let (valid, t, p) = set_new_fw_url_returns url len s h in
    elim (Outcome-cases
      (update_start dev start dev_type new_fw_ver hw_ver (some url) len policy s)) [
        | inl f ↦ absurd (ground arith)
        | inr ((r, after), q) ↦ (r, after, q)
      ]

pub update_sends :
    (dev : Device) (installed : ℕ) (s : UpdateState)
    → update_numeric_fw_ver dev none ≡ done installed
    → ((sent : List Effect) × (update_send_installed_fw dev s ≡ done sent))
      × ((sent : List Effect) × (send_update_status dev s ≡ done sent))
unfolding update_send_installed_fw send_update_status
update_sends dev installed s e = (
  elim (Outcome-cases (update_send_installed_fw dev s)) [
    | inl f ↦ absurd (ground arith)
    | inr (sent, p) ↦ (sent, p)
  ],
  elim (Outcome-cases (send_update_status dev s)) [
    | inl f ↦ absurd (ground arith)
    | inr (sent, p) ↦ (sent, p)
  ],
)
