-- ===== src/System/Register.antt =====
-- What the server and the user may rely on: the unique id and the coordinates of the device, as the
-- commands alone determine them.
use es_inverter.Base.{ℕ, ◌&&◌, List, [], ◌∷◌, if◌then◌else◌, ◌==◌, ltb, pos}
use es_inverter.Dispatcher.Position.{magnitude}
use es_inverter.Dispatcher.World.{
  Payload, connection_status_msg, environment_position_msg, status_msg,
}
use es_inverter.Storage.Data.{Coordinates}
use es_inverter.Storage.Dump.{State}
use es_inverter.System.Device.{Command, told, factory_reset}

pub record Register : Type 0 where
  pub unique_id : ℕ
  pub coord : Coordinates

abbrev pub register : {F : Type 0} → State F → Register
register s = record {
  unique_id = s.database.device.perm.unique_id;
  coord = s.database.device.perm.coord;
}

-- An id is assigned, a client is refused as unknown, or a place within bounds is told; nothing else
-- counts.
abbrev pub taught : ℕ → Payload → Register → Register
taught type_of (connection_status_msg unique_id) r =
    if type_of == 0x02 then record r { unique_id = unique_id } else r
taught type_of (environment_position_msg latitude longitude) r =
    if type_of == 0x74 && ltb (magnitude latitude) 9100000 && ltb (magnitude longitude) 18100000
    then record r { coord = record { latitude = latitude; longitude = longitude } }
    else r
taught type_of (status_msg error rq_type) r =
    if type_of == 0xF0 && rq_type == 1 && error == 3 then record r { unique_id = 0 } else r
taught type_of _ r = r

abbrev pub factory_register : Register
factory_register = record {
  unique_id = 0;
  coord = record { latitude = pos 5222970; longitude = pos 2101220 };
}

abbrev pub commanded : Command → Register → Register
commanded (told m) r = taught m.type_of m.msg r
commanded factory_reset r = factory_register

abbrev pub obeyed : List Command → Register → Register
obeyed [] r = r
obeyed (c ∷ cs) r = obeyed cs (commanded c r)
