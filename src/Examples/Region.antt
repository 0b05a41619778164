-- ===== src/Examples/Region.antt =====
-- The shared region of src/shm_pub.cpp through one bot's stay in slot 2.
use cs2_bot_identity.Base.{pos, some, [], ◌∷◌, codes, arith}
use cs2_bot_identity.Memory.{Memory}
use cs2_bot_identity.ShmPub.{
  publish_adopt, publish_release, publish_ping, publish_crosshair, publish_scoreboard_flair,
  of_int32, shm_name_len, crosshair_len,
}
use cs2_bot_identity.ShmPub.View.{state, steam_id, name, ping, crosshair, flair, le_bytes, pad}
use cs2_bot_identity.ShmPub.Layout.{put_field}
use cs2_bot_identity.ShmPub.Refine.{
  Refines, field_text, publish_field-Refines, publish_adopt-Refines, publish_release-Refines,
}

abbrev empty : Memory
empty i = 0

publish_adopt-Refines_example :
    Refines empty (publish_adopt (some empty) (pos 2) 7 (some (codes "ann"))) (λ r.
      put_field
        (put_field (put_field r state 2 (1 ∷ [])) steam_id 2 (le_bytes 8 7))
        name
        2
        (field_text shm_name_len (codes "ann")))
publish_adopt-Refines_example = publish_adopt-Refines empty 2 (omega arith) 7 (codes "ann")

publish_release-Refines_example : Refines empty (publish_release (some empty) (pos 2)) (λ r.
    put_field
      (put_field (put_field r state 2 (0 ∷ [])) steam_id 2 (le_bytes 8 0))
      name
      2
      (pad shm_name_len []))
publish_release-Refines_example = publish_release-Refines empty 2 (omega arith)

publish_field-Refines_example :
    Refines empty
      (publish_ping (some empty) (pos 2) (pos 40))
      (λ r. put_field r ping 2 (le_bytes 4 (of_int32 (pos 40))))
    × Refines empty
        (publish_scoreboard_flair (some empty) (pos 2) 9)
        (λ r. put_field r flair 2 (le_bytes 4 9))
    × Refines empty
        (publish_crosshair (some empty) (pos 2) (some (codes "CSGO")))
        (λ r. put_field r crosshair 2 (field_text crosshair_len (codes "CSGO")))
publish_field-Refines_example =
    publish_field-Refines empty 2 (omega arith) (pos 40) 9 (some (codes "CSGO"))
