-- ===== src/Lib.antt =====
-- libmonome: a library for the monome grids and arcs, which are boxes of LEDs, keys, encoders and
-- tilt sensors. A program opens a device, sets LEDs, and receives events; the library translates
-- between the user's coordinates, which may be rotated, and the bytes of three serial protocols or the
-- messages of OSC.
--
-- The parts and the files that model them (paths from the repository's root):
-- - Device: struct monome (src/private/internal.h) as a record, with the two ends of its
--   descriptor (`Port`): the buffers handed to write(2), what write(2) answers, and the answers of
--   read(2) and poll(2) to come. `Io A` is an operation on a device. Also monome_get_rows,
--   monome_get_cols and monome_set_rotation of src/libmonome.c.
-- - Rotation: src/rotation.c and src/private/rotation.h. Coords has the coordinate callbacks, Map
--   the map callbacks on little-endian 64-bit words, Builds those for the other machines, Levels the
--   level map callbacks, Reverse the macro REVERSE_BYTE.
-- - Monobright: src/monobright.c, levels reduced to on and off.
-- - Posix: monome_platform_read of src/platform/posix.c and monome_platform_wait_for_input of
--   src/platform/linux.c; monome_platform_write is in Device. Open has monome_platform_open, with the
--   terminal's settings, and Loop monome_event_loop and the clock.
-- - Discovery: src/platform/linux_sysfs.c, the search for a device's serial number.
-- - Event: monome_event_t of public/monome.h.
-- - Mext: src/proto/mext.c and mext.h. Message has the messages and mext_write_msg, Led, Level and
--   Ring the functions that send them, Receive mext_read_msg, the handlers and mext_next_event,
--   Open the handshake of mext_open. Draws, Rows and Cols are about what the messages show,
--   Level/Nybbles about the levels in them.
-- - Serial, Series, Forty: src/proto/series.c and src/proto/40h.c, with what they share in Serial.
--   Led, Level and Event have the functions; Show, Draws, Cols, Blocks and Map are about what the
--   messages show.
-- - Core: src/libmonome.c. Map has the device map of src/private/devices.h and
--   map_serial_to_device, Handlers the event handlers, Dispatch the functions that call the
--   protocol module and the tables of functions of the serial protocols. Open has monome_open and
--   monome_close with the loading of a module (src/platform/posix.c, src/platform/embed.c): a
--   Ledger says what is held, and whether something was lost, or released or used twice; Balance
--   what opening is to leave, Url what it leaves for an OSC URL,
--   Agreement that it answers as Osc does.
-- - Liblo: what Osc and Monomeserial use of the library liblo: messages, methods, sends.
-- - Osc: src/proto/osc.c and osc.h, the module that speaks to another process over OSC. Led has the
--   functions that send, Open opening and freeing; Receive and Draws are about events and pictures.
-- - Monomeserial: src/monomeserial.c, the program that serves a serial device over OSC: its handlers,
--   Methods their registration, Options the command line, Loop main_loop, Main `main`. Run is the
--   loop as a step relation, Bridge the loop over a mext device; Safety, Draws and Paths are about
--   the handlers.
-- - Frame is the specification of a grid's picture: what the led functions of public/monome.h ask
--   for, and the picture as the user of a rotated grid sees it (`view`). A `Draws` record says
--   which messages an operation writes, and that a device which shows messages as given takes the
--   user's picture to the wanted one. What a device shows for a message (`show` of each protocol)
--   is the device's side of the protocol, and so an assumption about code outside the repository.
-- - Common: tests, lists, fixed widths, signed results and binary digits. Tests: concrete runs.
--
-- The parts meet in Device: the protocol modules write to a device and read from it, Rotation is
-- what they turn coordinates and pictures by, and Core calls the protocol modules through tables.
--
-- Conventions. Bytes and `uint_t` are native numbers with their wrap-around written out. Where
-- Builds does not say otherwise, the machine is a little-endian one of 64 bits. Arrays are lists; a
-- read beyond the end gives 0. Strings are lists of bytes. Errors are the results of C, as signed
-- numbers. The loop of mext_next_event is given fuel: a turn takes a byte, so one turn more than
-- there are bytes to come is enough. The loop of mext_open runs over the readings of the clock, those of monomeserial and
-- monome_event_loop over the answers of poll(2) and select(2), one for each turn.
--
-- liblo is not part of the repository. Which handler a message reaches is the parameter `route`;
-- `IsRouting` states what its interface documents: the first method with the message's path and
-- types is called, and a handler only for as many arguments as its types name. A packet is the list
-- of the messages that liblo hands on, `lo_server_recv_noblock` takes at most one packet, and what a
-- send answers is a function of the log of sends. A read behind the arguments of a message, or
-- through a null pointer, has no result (`none`). A message whose path is a pattern, which liblo may
-- hand to several methods, is not covered. liblo's functions that release take NULL as free(3) does. The asprintf(3), dlopen(3), terminal and sysfs
-- calls answer what records such as `World` say, failures included.
--
-- Not modelled: discovery by libudev and IOKit, the Windows platform, what is printed, the getters
-- that return a field, the C++ wrapper, bindings, examples and build files. sscanf(3), strncpy(3),
-- strchr(3) and strstr(3) are modelled as the source uses them.
pub mod Common
pub mod Device
pub mod Rotation
pub mod Monobright
pub mod Posix
pub mod Event
pub mod Core
pub mod Frame
pub mod Mext
pub mod Serial
pub mod Series
pub mod Forty
pub mod Liblo
pub mod Osc
pub mod Monomeserial
pub mod Discovery
pub mod Tests
