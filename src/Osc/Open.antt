-- ===== src/Osc/Open.antt =====
-- `monome_protocol_new`, `proto_osc_open` and `proto_osc_free` of src/proto/osc.c.
use libmonome.Common.{
  ℕ, List, [], ◌∷◌, ◌++◌, Bool, true, false, if◌then◌else◌, none, ◌≡◌, refl, fun_ext,
}
use libmonome.Common.Int.{ℤ, pos, minus_one, ltb_ℤ}
use libmonome.Liblo.{Text, codes, Message, Method, Link, lo_send_from, lo_server_add_method}
use libmonome.Osc.{Handler, press_handler, delta_handler, enc_key_handler, Paths, Osc}

-- What the system answers while a device is opened: `asprintf k` says whether the k-th call of
-- asprintf(3) has the memory it needs, `undefined` is what its pointer leads to where it has not.
pub record Setting : Type 0 where
  pub server_new : Bool
  pub socket_fd : ℤ
  pub url_path : Text
  pub port_number : ℤ
  pub asprintf : ℕ → Bool
  pub undefined : Text

abbrev pub no_paths : Paths
no_paths = record {
  led_set = [];
  led_all = [];
  led_map = [];
  led_col = [];
  led_row = [];
  led_intensity = [];
  ring_set = [];
  ring_all = [];
  ring_map = [];
  ring_range = [];
}

-- monome_protocol_new
unfoldable pub monome_protocol_osc_new : Link → List (List Message) → Osc
monome_protocol_osc_new link packets = record {
  link = link;
  methods = [];
  packets = packets;
  prefix = [];
  have_event = false;
  e_ptr = none;
  paths = no_paths;
  fd = pos 0;
  freed = false;
}

-- proto_osc_free
unfoldable pub proto_osc_free : Osc → Osc
proto_osc_free self = record self { methods = []; prefix = []; paths = no_paths; freed = true }

-- ASPRINTF_OR_BAIL, the k-th one, and what follows it.
abbrev pub asprintf_or_bail : Setting → ℕ → (Osc → Osc) → (Osc → ℤ × Osc) → Osc → ℤ × Osc
asprintf_or_bail w k step next self = if w.asprintf k then next (step self) else (minus_one, self)

abbrev pub add_method : Text → Text → Handler → Osc → Osc
add_method path types h self = record self {
  methods = lo_server_add_method self.methods (self.prefix ++ path) types h;
}

-- CACHE_OSC_PATH; a call that fails leaves the pointer undefined.
abbrev pub cache_osc_path :
    Setting → ℕ → (Paths → Text → Paths) → Text → (Osc → ℤ × Osc) → Osc → ℤ × Osc
cache_osc_path w k put path next self =
    if w.asprintf k
    then next (record self { paths = put self.paths (self.prefix ++ path) })
    else (minus_one, record self { paths = put self.paths w.undefined })

-- The ten paths, in their order.
unfoldable pub cache_paths : Setting → Osc → ℤ × Osc
cache_paths w =
    cache_osc_path w 3 (λ p s. record p { led_set = s }) (codes "/grid/led/set")
      (cache_osc_path w 4 (λ p s. record p { led_all = s }) (codes "/grid/led/all")
        (cache_osc_path w 5 (λ p s. record p { led_map = s }) (codes "/grid/led/map")
          (cache_osc_path w 6 (λ p s. record p { led_col = s }) (codes "/grid/led/col")
            (cache_osc_path w 7 (λ p s. record p { led_row = s }) (codes "/grid/led/row")
              (cache_osc_path w 8 (λ p s. record p { led_intensity = s })
                (codes "/grid/led/intensity")
                (cache_osc_path w 9 (λ p s. record p { ring_set = s }) (codes "/ring/set")
                  (cache_osc_path w 10 (λ p s. record p { ring_all = s }) (codes "/ring/all")
                    (cache_osc_path w 11 (λ p s. record p { ring_map = s }) (codes "/ring/map")
                      (cache_osc_path w 12 (λ p s. record p { ring_range = s })
                        (codes "/ring/range") (λ self. (pos 0, self)))))))))))

-- proto_osc_close
unfoldable pub proto_osc_close : Osc → ℤ × Osc
proto_osc_close self = (pos 0, self)

-- proto_osc_open, once it has a server.
unfoldable pub open_server : Setting → Osc → ℤ × Osc
unfolding proto_osc_free proto_osc_close cache_paths
open_server w self =
    if ltb_ℤ self.fd (pos 0)
    then (pos 1, proto_osc_free (proto_osc_close self).1)
    else asprintf_or_bail w 0 (add_method (codes "/grid/key") (codes "iii") press_handler)
        (asprintf_or_bail w 1 (add_method (codes "/enc/delta") (codes "ii") delta_handler) (
          asprintf_or_bail w 2 (add_method (codes "/enc/key") (codes "ii") enc_key_handler)
            (cache_paths w)))
        (record self {
          link = (lo_send_from (codes "/sys/port") (codes "i") (w.port_number ∷ []) self.link).1;
        })

-- proto_osc_open
unfoldable pub proto_osc_open : Setting → Osc → ℤ × Osc
unfolding open_server
proto_osc_open w self =
    if w.server_new
    then open_server w (record self { prefix = w.url_path; fd = w.socket_fd })
    else (pos 1, self)

-- The methods and the paths of an open device.
abbrev pub opened_methods : Text → List (Method Handler)
opened_methods prefix =
    record { path = prefix ++ codes "/grid/key"; types = codes "iii"; handler = press_handler }
    ∷ record { path = prefix ++ codes "/enc/delta"; types = codes "ii"; handler = delta_handler }
    ∷ record { path = prefix ++ codes "/enc/key"; types = codes "ii"; handler = enc_key_handler }
    ∷ []

abbrev pub opened_paths : Text → Paths
opened_paths prefix = record {
  led_set = prefix ++ codes "/grid/led/set";
  led_all = prefix ++ codes "/grid/led/all";
  led_map = prefix ++ codes "/grid/led/map";
  led_col = prefix ++ codes "/grid/led/col";
  led_row = prefix ++ codes "/grid/led/row";
  led_intensity = prefix ++ codes "/grid/led/intensity";
  ring_set = prefix ++ codes "/ring/set";
  ring_all = prefix ++ codes "/ring/all";
  ring_map = prefix ++ codes "/ring/map";
  ring_range = prefix ++ codes "/ring/range";
}

-- What `proto_osc_open` establishes, and every later operation leaves as it is.
pub record IsOpen (prefix : Text) (self : Osc) : Type 0 where
  pub registered : self.methods ≡ opened_methods prefix
  pub cached : self.paths ≡ opened_paths prefix
  pub live : self.freed ≡ false

-- A system that refuses nothing.
pub record IsWilling (w : Setting) : Type 0 where
  pub serves : w.server_new ≡ true
  pub listens : ltb_ℤ w.socket_fd (pos 0) ≡ false
  pub allocates : (k : ℕ) → w.asprintf k ≡ true

pub proto_osc_open-IsOpen :
    (w : Setting) (link : Link) (packets : List (List Message))
    → IsWilling w
    → let (ret, self) = proto_osc_open w (monome_protocol_osc_new link packets) in
      (ret ≡ pos 0)
      × IsOpen w.url_path self
      × (self.packets ≡ packets)
      × (self.link.sent
          ≡ link.sent
            ++ record { path = codes "/sys/port"; types = codes "i"; argv = w.port_number ∷ [] }
              ∷ [])
unfolding proto_osc_open monome_protocol_osc_new
proto_osc_open-IsOpen w link packets h =
    rw (h.serves, h.listens, fun_ext h.allocates)
      (refl, record { registered = refl; cached = refl; live = refl }, refl, refl)
