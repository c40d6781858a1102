-- ===== src/Resources/Tests.antt =====
-- A channel of 32 bytes, where all system calls succeed or one does not.
use snakefish.Prelude.{runtime_error, abort, ok, err, ◌≡◌, refl, Bool, true, false}
use snakefish.Resources.{
  Part, Call, munmap, ◌>>◌, nothing, open_channel, dispose_channel, open_thread, dispose_thread,
  open_generator, dispose_generator,
}
use snakefish.Resources.Disposal.{everything, dispose-open, dispose_lem, open_generator-leaks}

abbrev all_succeed : Call → Bool
all_succeed c = true

-- The indices cannot be unmapped.
abbrev start_stays : Call → Bool
start_stays (munmap Part.start) = false
start_stays c = true

dispose-open_example :
    ((open_channel all_succeed 32 >> dispose_channel all_succeed) nothing ≡ (ok tt, nothing))
    × ((open_thread all_succeed 32 >> dispose_thread all_succeed) (nothing, false)
        ≡ (ok tt, (nothing, false)))
    × ((open_generator all_succeed all_succeed 32 true >> dispose_generator all_succeed all_succeed)
          (nothing, nothing)
        ≡ (ok tt, (nothing, nothing)))
dispose-open_example = dispose-open all_succeed all_succeed 31 (λ c. refl) (λ c. refl)

dispose_lem_example :
    ((dispose_channel start_stays everything).0 ≡ err abort)
    × ((dispose_thread start_stays (everything, true)).0 ≡ err abort)
    × ((dispose_generator start_stays all_succeed (everything, everything)).0 ≡ err abort)
dispose_lem_example = dispose_lem start_stays all_succeed everything everything true

open_generator-leaks_example :
    open_generator all_succeed all_succeed 32 false (nothing, nothing)
    ≡ (err runtime_error, (everything, everything))
open_generator-leaks_example =
    open_generator-leaks all_succeed all_succeed 31 (λ c. refl) (λ c. refl)
