-- ===== src/Tests/Handshake.antt =====
-- A run of `mext_open` of src/proto/mext.c on a device that answers.
use libmonome.Common.{List, [], ◌∷◌, ◌≡◌, refl, arith, replicate, false, true, none, some}
use libmonome.Common.Int.{pos}
use libmonome.Posix.{stream}
use libmonome.Mext.Open.{mext_open, have_all, Opening}
use libmonome.Mext.Open.Answers.{Answer, query_response, id, gridsz, known, learn_all}
use libmonome.Mext.Open.Success.{mext_open-learns}
use libmonome.Tests.Devices.{answering, responses}

abbrev answers : List Answer
answers = query_response 1 1 ∷ id (replicate 32 65) ∷ gridsz 16 8 ∷ []

mext_open-learns_example :
    (o : Opening) × (mext_open true none none 0 (10 ∷ []) answering ≡ some o)
    × (o.status ≡ pos 0)
    × (o.closed ≡ false)
    × (known o.self ≡ learn_all answers (record (known answering) { friendly = none }))
unfolding stream have_all
mext_open-learns_example =
    mext_open-learns none none 0 10 3 responses answers answering (λ log. refl) refl refl
      (omega arith) refl (refl, tt) (omega arith) (omega arith) refl refl
