-- ===== src/Evt/Tests.antt =====
-- The scenes of the LED at a concrete event.
use es_inverter.Base.{◌≡◌, ◌⊎◌, refl, arith}
use es_inverter.Evt.Scenes.{scenes_list, clear_all, scene_once, rgb_led_lavender, client_online}
use es_inverter.Evt.Table.{IsScene, Follows, scenes_list_lem}

scenes_list_lem_example :
    IsScene clear_all
    × IsScene (scene_once rgb_led_lavender 100 1000 200 1)
    × ((clear_all ≡ scene_once rgb_led_lavender 100 1000 200 1)
        ⊎ Follows clear_all (scene_once rgb_led_lavender 100 1000 200 1))
unfolding scenes_list
scenes_list_lem_example =
    scenes_list_lem 2 3 client_online clear_all (scene_once rgb_led_lavender 100 1000 200 1) refl
      refl (omega arith)
