-- ===== src/Tests/Opening.antt =====
-- Runs of opening and closing, of the event loop, and of the search for a serial number.
use libmonome.Common.{
  ltb, replicate, ◌≡◌, refl, List, [], ◌∷◌, ◌++◌, true, false, none, some, arith, ◌⊎◌, inl, inr,
}
use libmonome.Common.Int.{pos, eqb_ℤ}
use libmonome.Event.{button_up, button_down}
use libmonome.Liblo.{Text, codes}
use libmonome.Device.{rotate_0}
use libmonome.Mext.Receive.Next.{mext_event, mext_event-WritesEvents}
use libmonome.Mext.Open.{Opening, mext_open}
use libmonome.Mext.Open.Laws.{EndsWell, mext_open-EndsWell}
use libmonome.Core.Handlers.{Callback}
use libmonome.Core.Map.{Devmap, Proto}
use libmonome.Core.Ledger.{is_clear}
use libmonome.Core.Open.{World, osc, monome_open, monome_close}
use libmonome.Core.Open.Balance.{IsSound}
use libmonome.Core.Open.Laws.{monome_close-open}
use libmonome.Posix.Open.{
  Termios, Terminal, monome_platform_open, IsSerialLine, all_succeed, monome_platform_open-settings,
}
use libmonome.Posix.Loop.{monome_event_loop, handle_each, monome_event_loop-handle_each}
use libmonome.Discovery.{
  Sysfs, ftdi_path, monome_platform_get_dev_serial, monome_platform_get_dev_serial-read_serial,
}
use libmonome.Tests.Devices.{waiting, pressed}

abbrev cooked : Termios
cooked = record { flags = λ f. true; speed = 9600; vmin = 1; vtime = 0 }

abbrev terminal : Terminal
terminal = record {
  fd = pos 3;
  settings = cooked;
  tcgetattr = true;
  cfsetispeed = λ speed. true;
  cfsetospeed = λ speed. true;
  tcsetattr = λ asked. some (record asked { vmin = 1 });
  tcflush = true;
}

-- A handshake that the clock cuts off.
abbrev cut_off :
    (o : Opening) × (mext_open true none none 0 (10 ∷ 300 ∷ 1000 ∷ []) waiting ≡ some o)
    × EndsWell true o
cut_off =
    mext_open-EndsWell true none none 0 (10 ∷ 300 ∷ 1000 ∷ []) waiting (omega arith)
      (inr (inr (inl (omega arith))))

-- Memory runs out behind the last path that is cached, where a failed asprintf(3) leaves NULL.
abbrev world : World
world = record {
  dev_serial = λ dev. some (codes "m1000123");
  embedded = false;
  build_osc = true;
  asprintf = true;
  dlopen = true;
  dlsym = true;
  calloc = true;
  terminal = terminal;
  handshake = cut_off.0;
  osc_setting = record {
    server_new = true;
    socket_fd = pos 5;
    url_path = codes "/monome";
    port_number = pos 9000;
    asprintf = λ k. ltb k 13;
    undefined = [];
  };
  strp_null = true;
  strdup = true;
}

world-IsSound : IsSound world
world-IsSound = record { listens = refl; strp = inl refl; handshake = cut_off.2 }

abbrev url : Text
url = codes "osc.udp://:8080/monome"

monome_close-open_example :
    is_clear (
      monome_close world
        (record { proto = osc; rotation = rotate_0 })
        (monome_open world (some url)).1)
    ≡ true
unfolding monome_open
monome_close-open_example =
    monome_close-open world (some url) (record { proto = osc; rotation = rotate_0 }) world-IsSound
      refl

abbrev grid_64 : Devmap
grid_64 = record {
  sermatch = [];
  proto = Proto.series;
  dim_cols = 8;
  dim_rows = 8;
  quirk_57600_baud = true;
}

-- A terminal that does not take over every setting.
monome_platform_open-settings_example :
    let r = monome_platform_open grid_64 terminal in
    (asked : Termios) × IsSerialLine grid_64 cooked asked
    × (r.is_open ≡ all_succeed grid_64 terminal asked)
    × (r.is_open ≡ eqb_ℤ r.status (pos 0))
    × ((some (record asked { vmin = 1 }) ≡ some r.settings)
        ⊎ ((r.is_open ≡ false) × (r.settings ≡ cooked)))
monome_platform_open-settings_example = monome_platform_open-settings grid_64 terminal

abbrev handlers : List Callback
handlers = replicate 6 (record { cb = some 7; user_data = 1 })

-- A key on a mext grid, and then nothing: the event of the second turn is not written.
monome_event_loop-handle_each_example :
    monome_event_loop mext_event handlers (true ∷ true ∷ false ∷ []) (button_up 0 0) pressed
    ≡ handle_each mext_event handlers
        ((true, button_up 5 5) ∷ (true, button_down 7 7) ∷ (false, button_up 0 0) ∷ [])
        pressed
monome_event_loop-handle_each_example =
    monome_event_loop-handle_each mext_event handlers
      ((true, button_up 5 5) ∷ (true, button_down 7 7) ∷ (false, button_up 0 0) ∷ [])
      (button_up 0 0) pressed mext_event-WritesEvents

abbrev sysfs : Sysfs
sysfs = record {
  asprintf = true;
  glob = λ pattern. (ftdi_path ++ codes "/1-2:1.0/ttyUSB0") ∷ [];
  read_serial = λ device. some (codes "m1000123" ++ 10 ∷ []);
}

monome_platform_get_dev_serial-read_serial_example :
    monome_platform_get_dev_serial sysfs (codes "/dev/ttyUSB0") ≡ some (some (codes "m1000123"))
monome_platform_get_dev_serial-read_serial_example =
    monome_platform_get_dev_serial-read_serial sysfs (codes "dev") (codes "ttyUSB0") (codes "1-2")
      (codes "1.0/ttyUSB0") (codes "m1000123") 10 [] refl (ground arith) (ground arith)
      (ground arith) refl refl
