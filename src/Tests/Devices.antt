-- ===== src/Tests/Devices.antt =====
-- Devices and messages that the tests share.
use libmonome.Common.{ℕ, List, [], ◌∷◌, none, true, false, replicate}
use libmonome.Common.Int.{pos}
use libmonome.Device.{Device, Port, bytes, rotate_90, ready}
use libmonome.Mext.Receive.{Mext}
use libmonome.Posix.Ready.{bursts}
use libmonome.Serial.{Serial}

-- Every write is taken whole, as one byte, and nothing arrives.
abbrev pub quiet : Port
quiet = record { sent = []; accept = λ log. pos 1; arrivals = []; polls = [] }

-- A monome 128 on its side: the user has 8 columns and 16 rows.
abbrev pub turned_128 : Device
turned_128 = record {
  serial = none;
  friendly = none;
  rows = 8;
  cols = 16;
  rotation = rotate_90;
  port = quiet;
}

abbrev pub turned_40h : Device
turned_40h = record {
  serial = none;
  friendly = none;
  rows = 8;
  cols = 8;
  rotation = rotate_90;
  port = quiet;
}

-- A descriptor on which a message of three bytes, with one byte behind it, comes in two bursts.
abbrev pub two_bursts : ℕ → ℕ → ℕ → ℕ → Port
two_bursts a b c next = record {
  sent = [];
  accept = λ log. pos 1;
  arrivals = bytes (a ∷ []) ∷ bytes (b ∷ c ∷ next ∷ []) ∷ [];
  polls = ready false ∷ ready false ∷ [];
}

-- The LED at column 3, row 10 of the user's grid is the device's at 10, 4.
abbrev pub pressed : Mext
pressed = record {
  monome = record turned_128 { port = two_bursts 0x21 10 4 0x20 };
  need_responses = record { query = false; id = false; grid_size = false };
  id = replicate 33 0;
}

-- A message of two bytes, in two bursts.
abbrev pub pressed_serial : ℕ → ℕ → Serial
pressed_serial a b = record {
  monome = record turned_40h {
    port = record {
      sent = [];
      accept = λ log. pos 1;
      arrivals = bytes (a ∷ []) ∷ bytes (b ∷ []) ∷ [];
      polls = ready false ∷ ready false ∷ [];
    };
  };
  tilt_x = 0;
  tilt_y = 0;
}

abbrev pub picture : List ℕ
picture = 1 ∷ 2 ∷ 4 ∷ 8 ∷ 16 ∷ 32 ∷ 64 ∷ 255 ∷ []

-- A mext device before its handshake.
abbrev pub waiting : Mext
waiting = record pressed { need_responses = record { query = true; id = true; grid_size = true } }

-- A mext device on which a message has arrived, in one burst.
abbrev pub heard : ℕ → List ℕ → Mext
heard b bs = record pressed {
  monome = record turned_128 {
    port = record {
      sent = [];
      accept = λ log. pos 1;
      arrivals = bytes (b ∷ bs) ∷ [];
      polls = ready false ∷ ready false ∷ [];
    };
  };
  need_responses = record { query = true; id = true; grid_size = true };
}

-- A mext device before its handshake, with its three answers on the way.
abbrev pub responses : List (ℕ × List ℕ)
responses = (0x00, 1 ∷ 1 ∷ []) ∷ (0x01, replicate 32 65) ∷ (0x03, 16 ∷ 8 ∷ []) ∷ []

abbrev pub answering : Mext
answering = record waiting {
  monome = record turned_128 {
    rows = 0;
    cols = 0;
    port = record {
      sent = [];
      accept = λ log. pos 1;
      arrivals = bursts responses;
      polls = replicate 4 (ready false);
    };
  };
}
