-- ===== src/Evt/Table.antt =====
-- led_scene_evt.c: what the rows of the table of scenes have in common.
use es_inverter.Base.{
  ℕ, zero, suc, ◌≤◌, ◌<◌, ◌≡◌, ◌⊎◌, inl, inr, arith, true, List, [], ◌∷◌, some, All, All-get_elem?,
  get_elem?, subst, sym,
}
use es_inverter.Evt.Scenes.{
  Scene, LedEvent, accepts, scenes_list, clear_all, clear_once, scene_blink_once,
}

-- A scene within its types, that `led_scene_trigger` accepts.
pub record IsScene (s : Scene) : Type 0 where
  pub accepted : accepts s ≡ true
  pub color_bits : s.color < 16777216
  pub percentage : s.brightness ≤ 100
  pub t_on_word : s.t_on < 65536
  pub t_off_word : s.t_off < 65536
  pub repeats_word : s.repeats < 65536
  pub period_word : s.period < 65536

-- A scene that is to be seen comes behind one that clears.
abbrev pub Follows : Scene → Scene → Type 0
Follows first second =
    ((first ≡ clear_all) ⊎ (first ≡ clear_once)) × (second.type_of ≡ scene_blink_once)

abbrev IsOrdered : List (LedEvent × Scene) → Type 0
IsOrdered [] = Unit
IsOrdered (row ∷ rows) =
    All (λ later. later.0 ≡ row.0 → Follows row.1 later.1) rows × IsOrdered rows

scenes_list-IsScene : All (λ row. IsScene row.1) scenes_list
unfolding scenes_list
scenes_list-IsScene = ground arith

scenes_list-IsOrdered : IsOrdered scenes_list
unfolding scenes_list
scenes_list-IsOrdered = ground arith

ordered_at :
    (rows : List (LedEvent × Scene)) (i j : ℕ) (event : LedEvent) (first second : Scene)
    → IsOrdered rows
    → get_elem? rows i ≡ some (event, first)
    → get_elem? rows j ≡ some (event, second)
    → i ≤ j
    → (first ≡ second) ⊎ Follows first second
ordered_at [] i j event first second o e d h = absurd (cc)
ordered_at (row ∷ rows) zero zero event first second o e d h = inl (cc)
ordered_at ((known, shown) ∷ rows) zero (suc j) event first second o e d h =
    let its : known ≡ event = cc in
    let same : shown ≡ first = cc in
    inr (
      subst (λ s. Follows s second) same
        (All-get_elem? (λ later. later.0 ≡ known → Follows shown later.1) rows j (event, second) o.0
          d (sym its)))
ordered_at (row ∷ rows) (suc i) zero event first second o e d h = absurd (omega arith)
ordered_at (row ∷ rows) (suc i) (suc j) event first second o e d h =
    ordered_at rows i j event first second o.1 e d (omega arith)

-- Of two rows of the table for one event, or of a row and itself: `led_scene_trigger` accepts
-- the scene of each, and its numbers are within their types; they are the same scene, or the first
-- clears what was shown and the second blinks, so that no event clears what it shows itself.
pub scenes_list_lem :
    (i j : ℕ) (event : LedEvent) (first second : Scene)
    → get_elem? scenes_list i ≡ some (event, first)
    → get_elem? scenes_list j ≡ some (event, second)
    → i ≤ j
    → IsScene first × IsScene second × ((first ≡ second) ⊎ Follows first second)
scenes_list_lem i j event first second e d h = (
  All-get_elem? (λ row. IsScene row.1) scenes_list i (event, first) scenes_list-IsScene e,
  All-get_elem? (λ row. IsScene row.1) scenes_list j (event, second) scenes_list-IsScene d,
  ordered_at scenes_list i j event first second scenes_list-IsOrdered e d h,
)
