-- ===== src/Monomeserial/Main.antt =====
-- `main` of src/monomeserial.c, from its command line to its exit status.
use libmonome.Common.{
  is_some, true, ap, not, ◌&&◌, ℕ, ◌≡◌, refl, List, [], Bool, if◌then◌else◌, Option, none, some,
  arith, Bool-cases, Option-cases, inl, inr,
}
use libmonome.Common.Int.{ℤ}
use libmonome.Device.{Rotate}
use libmonome.Event.{Event}
use libmonome.Liblo.{Text, codes, Message, Method, Link}
use libmonome.Liblo.Laws.{IsRouting}
use libmonome.Core.Dispatch.{Capabilities, monome_led_all}
use libmonome.Monomeserial.{Handler}
use libmonome.Monomeserial.Methods.{register_osc_methods, unregister_osc_methods}
use libmonome.Monomeserial.Options.{Options, defaults, parse_options}
use libmonome.Monomeserial.Options.{is_numstr}
use libmonome.Monomeserial.Options.Chosen.{is_given, last_given, parse_options-IsChosen}
use libmonome.Monomeserial.Loop.{Round, main_loop}
use libmonome.Monomeserial.Run.Total.{any_hangup, main_loop-Run}

-- What the program meets: its options and operand, the device and the server that open, and what
-- then arrives.
pub record World (S : Type 0) : Type 0 where
  pub args : List (ℕ × Text)
  pub operand : Option Text
  pub monome_open : Text → Option S
  pub server_new : Text → Bool
  pub address_new : Text → Text → Link
  pub packets : List (List Message)
  pub rounds : List Round
  pub asprintf : ℕ → Bool
  pub asprintf_end : ℕ → Bool

abbrev pub prefix_of : Option Text → Text
prefix_of none = codes "monome"
prefix_of (some prefix) = prefix

-- EXIT_FAILURE and EXIT_SUCCESS, with the methods that were deleted before a success; a program that
-- still runs has no status.
pub data Outcome : Type 0 where
  failure : Outcome
  success : List (Text × Text) → Outcome
  running : Outcome

module _ {S : Type 0} (capabilities : Capabilities S) (set_rotation : S → Rotate → S)
    (next_event : S → (ℤ × Event) × S)
    (route : List (Method Handler) → Message → Option Handler) where
  -- The device is turned, and its LEDs are put out.
  abbrev pub prepared : Rotate → S → S
  prepared rotate m = (monome_led_all capabilities 0 (set_rotation m rotate)).1

  -- `main`, once the device and the server are open; a read behind an argument has no outcome.
  unfoldable pub serve : World S → Options → S → Option Outcome
  unfolding main_loop register_osc_methods unregister_osc_methods monome_led_all
  serve w o m =
      elim (main_loop capabilities next_event route (register_osc_methods w.asprintf prefix [])
        prefix w.rounds
        (record {
          monome = prepared o.rotate m;
          link = w.address_new o.ahost o.aport;
          packets = w.packets;
        })) [
          | none ↦ none
          | some (none, s) ↦ some running
          | some (some disconnected, s) ↦
              some (success (unregister_osc_methods w.asprintf_end prefix []))
        ]
    where
      prefix : Text
      prefix = prefix_of w.operand

  unfoldable pub main : World S → Option Outcome
  unfolding parse_options serve
  main w = elim (parse_options w.args defaults) [
    | none ↦ some failure
    | some o ↦ elim (w.monome_open o.device) [
      | none ↦ some failure
      | some m ↦ if w.server_new o.sport then serve w o m else some failure
    ]
  ]

  -- No help was asked for, and the device and the server open: the last ones that the command line
  -- names, where the port of the server passes `is_numstr`, or else those that are meant by default.
  abbrev pub can_start : World S → Bool
  can_start w =
      not (is_given b'h' w.args)
      && (is_some (w.monome_open (last_given b'd' (λ t. true) w.args (codes "/dev/ttyUSB0")))
          && w.server_new (last_given b's' is_numstr w.args (codes "8080")))

  serve-any_hangup :
      (w : World S) (o : Options) (m : S)
      → IsRouting route
      → serve w o m
        ≡ some (
            if any_hangup w.rounds
            then success (unregister_osc_methods w.asprintf_end (prefix_of w.operand) [])
            else running)
  unfolding serve
  serve-any_hangup w o m r =
      let methods = register_osc_methods w.asprintf (prefix_of w.operand) [] in
      let (t, es, e, run, keys, sent) =
        main_loop-Run capabilities next_event route methods (prefix_of w.operand) w.rounds
          (record {
            monome = prepared o.rotate m;
            link = w.address_new o.ahost o.aport;
            packets = w.packets;
          })
          (record { routes = r; asprintf = w.asprintf; registered = refl }) in
      elim (Bool-cases (any_hangup w.rounds)) [
        | inl gone ↦ ground (arith, gone, e)
        | inr here ↦ ground (arith, here, e)
      ]

  -- Where liblo routes as documented, `main` of monomeserial fails exactly where -h was given,
  -- or the last device that the command line names, /dev/ttyUSB0 if none, does not open, or a
  -- server on the last port that passes `is_numstr`, 8080 if none, does not; having started, it
  -- is running as long as no hang-up is reported, and otherwise it ends with success, having
  -- made the calls of `unregister_osc_methods`.
  pub main-can_start :
      (w : World S)
      → IsRouting route
      → main w
        ≡ some (
            if can_start w
            then (if any_hangup w.rounds
                then success (unregister_osc_methods w.asprintf_end (prefix_of w.operand) [])
                else running)
            else failure)
  unfolding main defaults
  main-can_start w r = elim (parse_options-IsChosen w.args defaults) [
    | inl (helped, refused) ↦ ground (arith, helped, refused)
    | inr (free, (o, parsed, chosen)) ↦ elim (Option-cases (w.monome_open o.device)) [
      | inl closed ↦
          ground (arith, free, parsed, closed, ap (λ t. is_some (w.monome_open t)) chosen.0)
      | inr (m, opened) ↦ elim (Bool-cases (w.server_new o.sport)) [
        | inl listens ↦ ground (
          arith,
          free,
          parsed,
          opened,
          listens,
          ap (λ t. is_some (w.monome_open t)) chosen.0,
          ap w.server_new chosen.1,
          serve-any_hangup w o m r,
        )
        | inr deaf ↦ ground (arith, free, parsed, opened, deaf, ap w.server_new chosen.1)
      ]
    ]
  ]
